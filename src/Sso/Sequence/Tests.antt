-- ===== src/Sso/Sequence/Tests.antt =====
-- Two threads, of which the second calls while the first still sets the counter up.
use mania.Base.{refl, [], ◌∷◌, arith}
use mania.Sso.Sequence.{
  start, initializing, waiting, returned, System, exchange, exchange_fails, store, load, fetch_add,
  next, previous, Reaches, initially, then,
}
use mania.Sso.Sequence.Distinct.{Descending, Reaches-Descending}

abbrev both_returned : System
both_returned = record {
  sequence = 6000002;
  before = returned 6000000 ∷ [];
  current = returned 6000001;
  after = [];
  issued = 6000001 ∷ 6000000 ∷ [];
}

both_reached : Reaches both_returned
both_reached =
    then _ _
      (then _ _
        (then _ _
          (then _ _
            (then _ _
              (then _ _
                (then _ _
                  (then _ _
                    (then _ _ (initially [] (start ∷ []) _ (refl, _)) (exchange [] (start ∷ []) []))
                    (next 1 initializing start [] [] []))
                  (exchange_fails 1 (initializing ∷ []) [] [] (omega arith)))
                (previous 1 initializing waiting [] [] []))
              (store 1 6000000 [] (waiting ∷ []) [] (omega arith) (omega arith)))
            (fetch_add 6000000 [] (waiting ∷ []) []))
          (next 6000001 (returned 6000000) waiting [] [] (6000000 ∷ [])))
        (load 6000001 (returned 6000000 ∷ []) [] (6000000 ∷ []) (omega arith)))
      (fetch_add 6000001 (returned 6000000 ∷ []) [] (6000000 ∷ []))

Reaches-Descending_example : Descending 6000002 (6000001 ∷ 6000000 ∷ [])
Reaches-Descending_example = Reaches-Descending both_returned both_reached (omega arith)
