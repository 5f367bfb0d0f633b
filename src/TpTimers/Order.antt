-- ===== src/TpTimers/Order.antt =====
-- Lists of timers in the order of their expiration, as the search tree keeps them.
use free_bfd.Base.{◌<◌, ◌≡◌, ◌≢◌, ◌⊎◌, inl, inr, List, [], ◌∷◌, arith, pos, negsuc}
use free_bfd.TpTimers.{Timeval, Entry, compare_time, put_in_order, take_out}

-- `s` comes before `t`.
abbrev pub Before : Timeval → Timeval → Type 0
Before s t = (s.sec < t.sec) ⊎ ((s.sec ≡ t.sec) × (s.usec < t.usec))

-- All items come after `k`.
abbrev pub AllAfter : Timeval → List Entry → Type 0
AllAfter k [] = Unit {0}
AllAfter k (x ∷ xs) = Before k x.at × AllAfter k xs

abbrev pub IsOrdered : List Entry → Type 0
IsOrdered [] = Unit {0}
IsOrdered (x ∷ xs) = AllAfter x.at xs × IsOrdered xs

-- No item is at time `k`.
abbrev pub NoneAt : Timeval → List Entry → Type 0
NoneAt k [] = Unit {0}
NoneAt k (x ∷ xs) = (x.at ≢ k) × NoneAt k xs

-- How `compare_time` decides.
pub data Compared (s t : Timeval) : Type 0 where
  before : compare_time s t ≡ negsuc 0 → Before s t → Compared s t
  same : compare_time s t ≡ pos 0 → s ≡ t → Compared s t
  later : compare_time s t ≡ pos 1 → Before t s → Compared s t

compared_lem :
    (s t : Timeval)
    → ((compare_time s t ≡ negsuc 0) × Before s t)
      ⊎ (((compare_time s t ≡ pos 0) × (s ≡ t)) ⊎ ((compare_time s t ≡ pos 1) × Before t s))
unfolding compare_time
compared_lem s t = ground arith

pub compared : (s t : Timeval) → Compared s t
compared s t = elim (compared_lem s t) [
  | inl (e, h) ↦ before e h
  | inr (inl (e, h)) ↦ same e h
  | inr (inr (e, h)) ↦ later e h
]

AllAfter-trans : (k l : Timeval) (xs : List Entry) → Before k l → AllAfter l xs → AllAfter k xs
AllAfter-trans k l [] h a = tt
AllAfter-trans k l (x ∷ xs) h a = (ground arith, AllAfter-trans k l xs h a.1)

AllAfter-put :
    (k : Timeval) (e : Entry) (xs : List Entry)
    → Before k e.at
    → AllAfter k xs
    → AllAfter k (put_in_order e xs)
unfolding put_in_order
AllAfter-put k e [] h a = (h, tt)
AllAfter-put k e (x ∷ xs) h a = elim (compared e.at x.at) [
  | before c b ↦ rw (c, put_in_order) (h, a)
  | same c b ↦ rw (c, put_in_order) a
  | later c b ↦ rw (c, put_in_order) (a.0, AllAfter-put k e xs h a.1)
]

pub put_in_order-IsOrdered :
    (e : Entry) (xs : List Entry) → IsOrdered xs → IsOrdered (put_in_order e xs)
unfolding put_in_order
put_in_order-IsOrdered e [] o = (tt, tt)
put_in_order-IsOrdered e (x ∷ xs) o = elim (compared e.at x.at) [
  | before c b ↦ rw (c, put_in_order) ((b, AllAfter-trans _ _ xs b o.0), o)
  | same c b ↦ rw (c, put_in_order) o
  | later c b ↦ rw (c, put_in_order) (AllAfter-put x.at e xs b o.0, put_in_order-IsOrdered e xs o.1)
]

AllAfter-take : (k l : Timeval) (xs : List Entry) → AllAfter k xs → AllAfter k (take_out l xs)
unfolding take_out
AllAfter-take k l [] a = tt
AllAfter-take k l (x ∷ xs) a = elim (compared l x.at) [
  | before c b ↦ rw (c, take_out) a
  | same c b ↦ rw (c, take_out) a.1
  | later c b ↦ rw (c, take_out) (a.0, AllAfter-take k l xs a.1)
]

pub take_out-IsOrdered : (k : Timeval) (xs : List Entry) → IsOrdered xs → IsOrdered (take_out k xs)
unfolding take_out
take_out-IsOrdered k [] o = tt
take_out-IsOrdered k (x ∷ xs) o = elim (compared k x.at) [
  | before c b ↦ rw (c, take_out) o
  | same c b ↦ rw (c, take_out) o.1
  | later c b ↦ rw (c, take_out) (AllAfter-take x.at k xs o.0, take_out-IsOrdered k xs o.1)
]

NoneAt-after : (k : Timeval) (xs : List Entry) → AllAfter k xs → NoneAt k xs
NoneAt-after k [] a = tt
NoneAt-after k (x ∷ xs) a = (λ e. ground arith, NoneAt-after k xs a.1)

pub take_out-NoneAt : (k : Timeval) (xs : List Entry) → IsOrdered xs → NoneAt k (take_out k xs)
unfolding take_out
take_out-NoneAt k [] o = tt
take_out-NoneAt k (x ∷ xs) o = elim (compared k x.at) [
  | before c b ↦ rw (c, take_out) (NoneAt-after k (x ∷ xs) (b, AllAfter-trans _ _ xs b o.0))
  | same c b ↦ rw (c, take_out) (NoneAt-after k xs (rw b o.0))
  | later c b ↦ rw (c, take_out) ((λ e. ground arith), take_out-NoneAt k xs o.1)
]
