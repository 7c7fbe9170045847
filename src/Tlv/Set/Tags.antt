-- ===== src/Tlv/Set/Tags.antt =====
-- A set is keyed by what its values say of themselves, so `get` finds the value of its type.
use mania.Base.{
  ℕ, zero, suc, ◌≡◌, refl, arith, List, [], ◌∷◌, Option, some, if◌then◌else◌, ◌==◌, subst, true,
  Bool-cases, inl, inr, ==_iff,
}
use mania.Base.Fault
use mania.Base.Fault.{Fault, done, panic, Result, ok, err, >>=-done}
use mania.Packet.Reader.{u16}
use mania.Tlv.Set.{
  TlvDe, TlvError, Body, TlvSet, tag_of, insert, lookup, collect, deserialize_one,
  deserialize_count, deserialize_set,
}

-- An insertion changes one key.
pub lookup-insert :
    (m : TlvSet) (tag other : ℕ) (tlv : TlvDe)
    → (if tag == other then some tlv else lookup other m) ≡ lookup other (insert tag tlv m)
unfolding lookup insert
lookup-insert [] tag other tlv = refl
lookup-insert ((t, v) ∷ m) tag other tlv = ground (arith, lookup-insert m tag other tlv)

-- Every value is stored under its own tag.
pub IsKeyed : TlvSet → Type 0
IsKeyed m = (tag : ℕ) (v : TlvDe) → lookup tag m ≡ some v → tag_of v ≡ tag

own : (v w : TlvDe) (tag : ℕ) → (tag_of v == tag) ≡ true → some v ≡ some w → tag_of w ≡ tag
own v w tag same e = cc ((==_iff (tag_of v) tag).0 same)

insert-IsKeyed : (v : TlvDe) (m : TlvSet) → IsKeyed m → IsKeyed (insert (tag_of v) v m)
unfolding IsKeyed
insert-IsKeyed v m h tag w e = elim (Bool-cases (tag_of v == tag)) [
  | inl same ↦ own v w tag same (rw (← lookup-insert m (tag_of v) tag v, same) at e)
  | inr other ↦ h tag w (rw (← lookup-insert m (tag_of v) tag v, other) at e)
]

collect-IsKeyed : (r : Result TlvError TlvDe) (m : TlvSet) → IsKeyed m → IsKeyed (collect r m)
unfolding collect
collect-IsKeyed (ok v) m h = insert-IsKeyed v m h
collect-IsKeyed (err e) m h = h

same_value : {m m' : TlvSet} → ◌≡◌ {A = Fault TlvSet} (done m) (done m') → m ≡ m'
same_value e = cc

empty-IsKeyed : IsKeyed []
unfolding IsKeyed lookup
empty-IsKeyed tag v e = cc

same_set :
    {m m' : TlvSet} {bs rest : List ℕ}
    → ◌≡◌ {A = Fault (TlvSet × List ℕ)} (done (m, bs)) (done (m', rest))
    → m ≡ m'
same_set e = cc

deserialize_count-IsKeyed :
    (table : ℕ → Option Body) (count : ℕ) (m : TlvSet) (bs : List ℕ) (m' : TlvSet) (rest : List ℕ)
    → IsKeyed m
    → deserialize_count table count m bs ≡ done (m', rest)
    → IsKeyed m'
unfolding deserialize_count
deserialize_count-IsKeyed table zero m bs m' rest h e = subst IsKeyed (same_set e) h
deserialize_count-IsKeyed table (suc count) m bs m' rest h e =
    let one =
      >>=-done (deserialize_one table bs)
        (λ (r, tail). deserialize_count table count (collect r m) tail) (m', rest) e in
    deserialize_count-IsKeyed table count (collect one.0.0 m) one.0.1 m' rest
      (collect-IsKeyed one.0.0 m h) one.1.1

deserialize_set-IsKeyed :
    (table : ℕ → Option Body) (packet : List ℕ) (m : TlvSet)
    → deserialize_set table packet ≡ done m
    → IsKeyed m
unfolding deserialize_set
deserialize_set-IsKeyed table packet m e =
    let read =
      >>=-done (Fault.◌>>=◌ (u16 packet) (λ (count, rest). deserialize_count table count [] rest))
        (λ (m', rest). done m') m e in
    let counted =
      >>=-done (u16 packet) (λ (count, rest). deserialize_count table count [] rest) read.0
        read.1.0 in
    subst IsKeyed (same_value read.1.1) (
      deserialize_count-IsKeyed table counted.0.0 [] counted.0.1 read.0.0 read.0.1 empty-IsKeyed
        counted.1.1)

-- Whatever bytes arrive, a set that is read holds every value under the tag of its own type.
pub tag_of-lookup :
    (table : ℕ → Option Body) (packet : List ℕ) (m : TlvSet) (tag : ℕ) (v : TlvDe)
    → deserialize_set table packet ≡ done m
    → lookup tag m ≡ some v
    → tag_of v ≡ tag
unfolding IsKeyed
tag_of-lookup table packet m tag v e found = deserialize_set-IsKeyed table packet m e tag v found
