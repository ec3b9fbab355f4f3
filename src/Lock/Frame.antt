-- ===== src/Lock/Frame.antt =====
-- What a process that does not hold the lock leaves alone.
use unix_tasks.Prelude.{
  ℕ, suc, ◌≡◌, refl, ap, ◌∙◌, true, false, some, [], ◌∷◌, Bytes, drop, arith, Bool-cases, inl, inr,
}
use unix_tasks.Lock.Worker.{
  Shared, Proc, Point, looping, creating, pausing, writing, closing, sleeping, opening, reading,
  draining, checking, unlinking, opening_stats, reporting, closing_stats, exited, failed, Event,
  success, interrupt, failure, sigint, retry, give_up, succeed, react, try_create, after_report,
}
use unix_tasks.Lock.Owner.{critical, Owns, IsPid, succeed-Owns, Locked}

retry-Owns :
    (self : ℕ) (sh : Shared) (point : Point) (p : Proc)
    → p.point ≡ point
    → Owns sh self point
    → Owns sh self (retry point p).point
unfolding retry
retry-Owns self sh pausing p q o = ground arith
retry-Owns self sh sleeping p q o = elim (Bool-cases p.stop_flag) [
  | inl h ↦ rw h o
  | inr h ↦ rw (h, q) o
]
retry-Owns self sh _ p q o = rw q o

give_up-Owns :
    (self : ℕ) (sh : Shared) (point : Point) (e : ℕ) (p : Proc)
    → p.point ≡ point
    → Owns sh self point
    → Owns sh self (give_up point e p).point
unfolding give_up
give_up-Owns self sh looping e p q o = rw q o
give_up-Owns self sh sleeping e p q o = rw q o
give_up-Owns self sh exited e p q o = rw q o
give_up-Owns self sh (failed f) e p q o = rw q o
give_up-Owns self sh _ e p q o = tt

-- Every event keeps what the process owns.
pub react-Owns :
    (self : ℕ) (e : Event) (sh : Shared) (p : Proc)
    → IsPid self
    → Owns sh self p.point
    → Owns (react self e sh p).0 self (react self e sh p).1.point
unfolding react
react-Owns self (success k) sh p h o = succeed-Owns self p.point k sh p h refl o
react-Owns self interrupt sh p h o = retry-Owns self sh p.point p refl o
react-Owns self (failure e) sh p h o = give_up-Owns self sh p.point e p refl o
react-Owns self sigint sh p h o = o

pub Owns-outside : (sh : Shared) (self : ℕ) (pt : Point) → critical pt ≡ false → Owns sh self pt
Owns-outside sh self looping c = tt
Owns-outside sh self (writing fd left) c = cc
Owns-outside sh self closing c = cc
Owns-outside sh self sleeping c = cc
Owns-outside sh self opening c = cc
Owns-outside sh self (reading fd got) c = cc
Owns-outside sh self (draining fd got) c = cc
Owns-outside sh self (checking got) c = cc
Owns-outside sh self unlinking c = cc
Owns-outside sh self _ c = tt

-- A holder's entry is there.
pub Owns-entry :
    (sh : Shared) (self : ℕ) (pt : Point)
    → critical pt ≡ true
    → Owns sh self pt
    → (n : ℕ) × (sh.entry ≡ some n)
Owns-entry sh self (writing fd left) c o = (fd, o.0)
Owns-entry sh self closing c o = (o.inode, o.linked)
Owns-entry sh self sleeping c o = (o.inode, o.linked)
Owns-entry sh self opening c o = (o.inode, o.linked)
Owns-entry sh self (reading fd got) c o = (fd, o.0)
Owns-entry sh self (draining fd got) c o = (fd, o.0)
Owns-entry sh self (checking got) c o = (o.0.inode, o.0.linked)
Owns-entry sh self unlinking c o = (o.inode, o.linked)
Owns-entry sh self _ c o = cc

-- The entry and the inodes are as before.
pub record SameLock (sh sh' : Shared) : Type 0 where
  pub entry : sh'.entry ≡ sh.entry
  pub content : sh'.content ≡ sh.content

Locked-SameLock : (sh sh' : Shared) (self : ℕ) → SameLock sh sh' → Locked sh self → Locked sh' self
Locked-SameLock sh sh' self v o = record {
  inode = o.inode;
  linked = v.entry ∙ o.linked;
  holds = ap (λ f. f o.inode) v.content ∙ o.holds;
}

pub Owns-SameLock :
    (sh sh' : Shared) (self : ℕ) (pt : Point) → SameLock sh sh' → Owns sh self pt → Owns sh' self pt
Owns-SameLock sh sh' self (writing fd left) v o = ground arith
Owns-SameLock sh sh' self closing v o = Locked-SameLock sh sh' self v o
Owns-SameLock sh sh' self sleeping v o = Locked-SameLock sh sh' self v o
Owns-SameLock sh sh' self opening v o = Locked-SameLock sh sh' self v o
Owns-SameLock sh sh' self (reading fd got) v o = ground arith
Owns-SameLock sh sh' self (draining fd got) v o = ground arith
Owns-SameLock sh sh' self (checking got) v o = (Locked-SameLock sh sh' self v o.0, o.1)
Owns-SameLock sh sh' self unlinking v o = Locked-SameLock sh sh' self v o
Owns-SameLock sh sh' self _ v o = tt

report-outside : (left : Bytes) → critical (after_report left) ≡ false
report-outside [] = refl
report-outside (c ∷ cs) = refl

-- Outside the critical section, with the entry there, an event changes neither and does not lead
-- inside.
succeed-SameLock :
    (self : ℕ) (pt : Point) (k : ℕ) (sh : Shared) (p : Proc) {n : ℕ}
    → p.point ≡ pt
    → critical pt ≡ false
    → sh.entry ≡ some n
    → SameLock sh (succeed self pt k sh p).0 × (critical (succeed self pt k sh p).1.point ≡ false)
unfolding succeed try_create
succeed-SameLock self looping k sh p q c e = ground arith
succeed-SameLock self creating k sh p q c e = ground arith
succeed-SameLock self pausing k sh p q c e = ground arith
succeed-SameLock self opening_stats k sh p q c e = ground arith
succeed-SameLock self (reporting left) k sh p q c e =
    (record { entry = refl; content = refl }, report-outside (drop (suc k) left))
succeed-SameLock self closing_stats k sh p q c e = ground arith
succeed-SameLock self exited k sh p q c e = ground arith
succeed-SameLock self (failed f) k sh p q c e = ground arith
succeed-SameLock self _ k sh p q c e = cc

retry-outside :
    (pt : Point) (p : Proc)
    → p.point ≡ pt
    → critical pt ≡ false
    → critical (retry pt p).point ≡ false
unfolding retry
retry-outside pausing p q c = ground arith
retry-outside sleeping p q c = cc
retry-outside _ p q c = rw q c

give_up-outside :
    (pt : Point) (e : ℕ) (p : Proc)
    → p.point ≡ pt
    → critical pt ≡ false
    → critical (give_up pt e p).point ≡ false
unfolding give_up
give_up-outside looping e p q c = rw q c
give_up-outside sleeping e p q c = cc
give_up-outside exited e p q c = rw q c
give_up-outside (failed f) e p q c = rw q c
give_up-outside _ e p q c = refl

pub react-SameLock :
    (self : ℕ) (e : Event) (sh : Shared) (p : Proc) {n : ℕ}
    → critical p.point ≡ false
    → sh.entry ≡ some n
    → SameLock sh (react self e sh p).0 × (critical (react self e sh p).1.point ≡ false)
unfolding react
react-SameLock self (success k) sh p c e = succeed-SameLock self p.point k sh p refl c e
react-SameLock self interrupt sh p c e =
    (record { entry = refl; content = refl }, retry-outside p.point p refl c)
react-SameLock self (failure x) sh p c e =
    (record { entry = refl; content = refl }, give_up-outside p.point x p refl c)
react-SameLock self sigint sh p c e = (record { entry = refl; content = refl }, c)
