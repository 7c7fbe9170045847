-- ===== src/Tlv/RoundTrip.antt =====
-- A set of TLVs that is written is its count and its entries, and is read back entry by entry.
use mania.Base.{
  ℕ, ◌^◌, ◌<◌, ◌≡◌, ap, sym, List, [], ◌∷◌, ◌++◌, Option, some, map, length, length-map, All,
  append-nil, append_assoc,
}
use mania.Base.Bytes.{be16}
use mania.Base.Fault.{Fault, done, ◌>>=◌}
use mania.Packet.Builder.{Build, bytes, build}
use mania.Packet.Builder.Appends.{Appends, Appends-⨾, Appends-u16, Appends-unchanged}
use mania.Tlv.Writer.{tlv, entry, Appends-tlv}
use mania.Tlv.Login.{serialize_each, serialize_set}
use mania.Tlv.Set.{Body, deserialize_set}
use mania.Tlv.Set.Entries.{Entry, FitsEntry, entries, read_entries, deserialize_set-entries}

module _ (table : ℕ → Option (Fault Build)) where
  -- The table knows the tag, and its TLV writes the body.
  pub record Writes (e : Entry) : Type 0 where
    pub f : Build
    pub known : table e.0 ≡ some (done (tlv e.0 f))
    pub body : Appends f e.1
    pub fits : FitsEntry e

  unfoldable pub tags : List Entry → List ℕ
  tags = map (λ e. e.0)

  All-FitsEntry : (es : List Entry) → All Writes es → All FitsEntry es
  All-FitsEntry [] h = h
  All-FitsEntry (e ∷ es) (w, ws) = (w.fits, All-FitsEntry es ws)

  Appends-serialize_each :
      (es : List Entry) → All Writes es → Appends (serialize_each table (tags es)) (entries es)
  unfolding serialize_each tags build bytes
  Appends-serialize_each [] h = Appends-unchanged
  Appends-serialize_each ((tag, body) ∷ es) (w, ws) = record {
    at = λ p.
        rw
          (
            w.known,
            (Appends-tlv tag w.body w.fits.1).at [],
            (Appends-serialize_each es ws).at (p ++ entry tag body),
          )
          (ap done (append_assoc p (entry tag body) (entries es)));
  }

  Appends-serialize_set :
      (es : List Entry)
      → All Writes es
      → Appends (serialize_set table (tags es)) (be16 (length es) ++ entries es)
  unfolding serialize_set tags
  Appends-serialize_set es ws =
      rw (sym (length-map (λ e. e.0) es))
        (Appends-⨾ (Appends-u16 (length (tags es))) (Appends-serialize_each es ws))

  -- A set is written as its count and its entries when the table knows every tag and the values
  -- fit their 16-bit lengths; any reading table then takes these entries one by one.
  pub deserialize_set-serialize_set :
      (bodies : ℕ → Option Body) (es : List Entry)
      → All Writes es
      → length es < 2 ^ 16
      → (build (serialize_set table (tags es)) >>= deserialize_set bodies)
        ≡ read_entries bodies es []
  unfolding build
  deserialize_set-serialize_set bodies es ws n = rw ((Appends-serialize_set es ws).at []) (
      rw (sym (append-nil (entries es)))
        (deserialize_set-entries bodies es [] (All-FitsEntry es ws) n))
