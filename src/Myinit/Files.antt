-- ===== src/Myinit/Files.antt =====
-- `parse_config_file` (task3-myinit/myinit.c) from the path to the table of entries: its calls of
-- `open`, `fstat` and `read`.
use unix_tasks.Prelude.{
  ℕ, suc, ◌-◌, Bool, Option, none, some, List, [], ◌∷◌, ◌++◌, ◌==◌, ltb, length, take, drop, min,
  Bytes, if◌then◌else◌,
}
use unix_tasks.Kernel.{ReadReply, gives, interrupted, failed}
use unix_tasks.Myinit.Config.{Config, allocate, max_config_size, parse_buffer}

-- How the loop of `read` ends: with the bytes it has got, with -1, or waiting for an answer.
pub data Reading : Type 0 where
  filled : Bytes → Reading
  broken : Reading
  pending : Reading

-- `pos` is the length of `got`. The loop also ends at the end of the file.
unfoldable pub read_contents : ℕ → Bytes → Bytes → List ReadReply → Reading
read_contents st_size contents got [] = if ltb (length got) st_size then pending else filled got
read_contents st_size contents got (gives k ∷ rs) =
    let chunk = take (min (suc k) (st_size - length got)) (drop (length got) contents) in
    let more = read_contents st_size contents (got ++ chunk) rs in
    if ltb (length got) st_size
    then (if length chunk == 0 then filled got else more)
    else filled got
read_contents st_size contents got (interrupted ∷ rs) =
    let more = read_contents st_size contents got rs in
    if ltb (length got) st_size then more else filled got
read_contents st_size contents got (failed e ∷ rs) =
    if ltb (length got) st_size then broken else filled got

-- The file at the path: whether `open` succeeds, the size that `fstat` tells, what `read` finds,
-- and what the memory of the buffer held before.
pub record ConfigFile : Type 0 where
  pub opened : Bool
  pub st_size : Option ℕ
  pub contents : Bytes
  pub reads : List ReadReply
  pub garbage : Bytes

-- 0, -1, or no return yet.
pub data Load : Type 0 where
  loaded : Config → Load
  refused : Load
  waiting : Load

abbrev pub parsed_as : Option Config → Load
parsed_as none = refused
parsed_as (some cfg) = loaded cfg

abbrev pub with_contents : ConfigFile → ℕ → List Bool → Reading → Load
with_contents file st_size allocs (filled contents) =
    parsed_as
      (parse_buffer (record { entries = []; allocs = allocs }) st_size contents file.garbage)
with_contents file st_size allocs broken = refused
with_contents file st_size allocs pending = waiting

abbrev pub with_buffer : ConfigFile → ℕ → Option (List Bool) → Load
with_buffer file st_size none = refused
with_buffer file st_size (some allocs) =
    with_contents file st_size allocs (read_contents st_size file.contents [] file.reads)

abbrev pub with_size : ConfigFile → List Bool → Option ℕ → Load
with_size file allocs none = refused
with_size file allocs (some st_size) =
    if ltb max_config_size st_size then refused else with_buffer file st_size (allocate 1 allocs)

unfoldable pub parse_config_file : ConfigFile → List Bool → Load
parse_config_file file allocs = if file.opened then with_size file allocs file.st_size else refused
