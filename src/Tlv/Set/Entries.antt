-- ===== src/Tlv/Set/Entries.antt =====
-- A set on the wire is read entry by entry: each value goes to its own reader, and an entry that is
-- unknown or refused changes nothing for the others.
use mania.Base.{
  ℕ, ◌+◌, ◌^◌, ◌<◌, ◌≡◌, refl, ◌∙◌, arith, List, [], ◌∷◌, ◌++◌, Option, none, some, length,
  append_assoc, All, sym,
}
use mania.Base.Bytes.{be16}
use mania.Base.Fault.{Fault, done, panic, Result, ok, err, >>=-assoc}
use mania.Base.Fault
use mania.Packet.Reader.{read_packet}
use mania.Packet.Reader.Reads.{Reads-u16, Reads-split_to, section_16_on_buffer}
use mania.Tlv.Set.{
  TlvDe, TlvError, unsupported_tag, Body, TlvSet, deserialize_one, collect, deserialize_count,
  deserialize_set, length_value, dispatch,
}
use mania.Tlv.Writer.{entry}

abbrev pub Entry : Type 0
Entry = ℕ × List ℕ

abbrev pub FitsEntry : Entry → Type 0
FitsEntry e = (e.0 < 2 ^ 16) × (length e.1 + 0 < 2 ^ 16)

abbrev pub entries : List Entry → List ℕ
entries [] = []
entries ((tag, body) ∷ es) = entry tag body ++ entries es

-- What a value is read to by its reader, without the bytes around it.
unfoldable pub interpret : ℕ → List ℕ → Option Body → Fault (Result TlvError TlvDe)
interpret tag body none = done (err (unsupported_tag tag))
interpret tag body (some f) = Fault.◌>>=◌ (f body) λ (r, left). done r

dispatch-entry :
    (tag : ℕ) (found : Option Body) (body rest : List ℕ)
    → length body + 0 < 2 ^ 16
    → dispatch tag found (be16 (length body + 0) ++ (body ++ rest))
      ≡ Fault.◌>>=◌ (interpret tag body found) λ r. done (r, rest)
unfolding dispatch interpret read_packet
dispatch-entry tag none body rest h =
    rw ((Reads-u16 (length body + 0) h).at (body ++ rest))
      (rw ((Reads-split_to (length body + 0) body (omega arith)).at rest))
dispatch-entry tag (some f) body rest h =
    unfold length_value in section_16_on_buffer f 0 body rest h ∙ sym (>>=-assoc (f body) _ _)

drop_rest {ℓ} :
    {A : Type ℓ} (v : Fault A) (rest : List ℕ)
    → Fault.◌>>=◌ (Fault.◌>>=◌ v λ m. done (m, rest)) (λ (m, left). done m) ≡ v
drop_rest (done a) rest = refl
drop_rest panic rest = refl

module _ (table : ℕ → Option Body) where
  unfoldable pub read_entries : List Entry → TlvSet → Fault TlvSet
  read_entries [] m = done m
  read_entries ((tag, body) ∷ es) m =
      Fault.◌>>=◌ (interpret tag body (table tag)) λ r. read_entries es (collect r m)

  deserialize_one-entry :
      (tag : ℕ) (body rest : List ℕ)
      → FitsEntry (tag, body)
      → deserialize_one table (entry tag body ++ rest)
        ≡ Fault.◌>>=◌ (interpret tag body (table tag)) λ r. done (r, rest)
  unfolding deserialize_one
  deserialize_one-entry tag body rest (ht, hb) =
      rw ((Reads-u16 tag ht).at (be16 (length body + 0) ++ (body ++ rest)))
        (dispatch-entry tag (table tag) body rest hb)

  -- Once the first entry is read, both go on in the same way.
  after_first :
      (v : Fault (Result TlvError TlvDe)) (es : List Entry) (m : TlvSet) (rest : List ℕ)
      → ((m' : TlvSet)
          → deserialize_count table (length es) m' (entries es ++ rest)
            ≡ Fault.◌>>=◌ (read_entries es m') λ m''. done (m'', rest))
      → Fault.◌>>=◌
          (Fault.◌>>=◌ v λ r. done (r, entries es ++ rest))
          (λ (r, tail). deserialize_count table (length es) (collect r m) tail)
        ≡ Fault.◌>>=◌ (Fault.◌>>=◌ v λ r. read_entries es (collect r m)) λ m''. done (m'', rest)
  after_first (done r) es m rest ih = ih (collect r m)
  after_first panic es m rest ih = refl

  deserialize_count-entries :
      (es : List Entry) (m : TlvSet) (rest : List ℕ)
      → All FitsEntry es
      → deserialize_count table (length es) m (entries es ++ rest)
        ≡ Fault.◌>>=◌ (read_entries es m) λ m'. done (m', rest)
  unfolding deserialize_count read_entries
  deserialize_count-entries [] m rest h = refl
  deserialize_count-entries ((tag, body) ∷ es) m rest (he, hs) =
      rw (append_assoc body (entries es) rest) (
        rw (deserialize_one-entry tag body (entries es ++ rest) he) (
          after_first (interpret tag body (table tag)) es m rest
            (λ m'. deserialize_count-entries es m' rest hs)))

  -- A set with its count in front and whatever behind it: the values are read one by one, each by
  -- the reader of its tag; an unknown tag or a refused value leaves the set as it is and the
  -- other entries in step; a value whose reader panics makes the whole call panic.
  pub deserialize_set-entries :
      (es : List Entry) (rest : List ℕ)
      → All FitsEntry es
      → length es < 2 ^ 16
      → deserialize_set table (be16 (length es) ++ (entries es ++ rest)) ≡ read_entries es []
  unfolding deserialize_set
  deserialize_set-entries es rest h n =
      rw ((Reads-u16 (length es) n).at (entries es ++ rest))
        (rw (deserialize_count-entries es [] rest h) (drop_rest (read_entries es []) rest))
