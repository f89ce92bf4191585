-- ===== src/Graph/HistoryEnds.antt =====
-- `walk_history` ends over a finite set of objects, and keeps to its limit.
use clayers.Prelude.{
  ℕ, zero, suc, ◌+◌, ◌≤◌, ◌<◌, ◌≡◌, ◌≢◌, inl, inr, false, Option, some, List, [], ◌∷◌, ◌++◌, arith,
  leb, length, length-append, nat_eq, Bool-cases,
}
use clayers.Prelude.Dict.{Dict, lookup}
use clayers.Error.{ContentHash, Result, ok, out_of_fuel, >>=-eq-ok, >>=-ne-out_of_fuel}
use clayers.Object.{Object, commit}
use clayers.Store.{fetch}
use clayers.Graph.{enqueue, limit_reached, history, walk_history}
use clayers.Graph.Queue.{enqueue-Grows, unseen, unseen-le-length}
use clayers.Graph.History.{Log}
use clayers.Graph.CommonEnds.{all_parents, fetch-ne-out_of_fuel, fetched-Within}

module _ (get : ContentHash → Result (Option Object)) where
  length-history :
      (fuel max : ℕ) (result log : Log) (queue visited : List ContentHash)
      → length result ≤ max
      → history get fuel (some max) result queue visited ≡ ok log
      → length log ≤ max
  unfolding history
  length-history zero max result log queue visited h e = cc
  length-history (suc fuel) max result log [] visited h e = ground arith
  length-history (suc fuel) max result log (k ∷ queue) visited h e =
      elim (Bool-cases (leb max (length result))) [
        | inl full ↦ ground arith
        | inr room ↦
            let (o, f, rest) = >>=-eq-ok (fetch get k) _ (rw (room, history) at e) in
            after_fetch (length-history fuel max) o room rest
      ]
    where
      after_fetch :
          ((result log : Log) (queue visited : List ContentHash)
            → length result ≤ max
            → history get fuel (some max) result queue visited ≡ ok log
            → length log ≤ max)
          → (o : Object) → leb max (length result) ≡ false
          → (elim o as (λ _. Result Log) [
            | commit c ↦
                let (visited', queue') = enqueue c.parents visited queue in
                history get fuel (some max) (result ++ (k, c) ∷ []) queue' visited'
            | _ ↦ history get fuel (some max) result queue visited
          ])
            ≡ ok log
          → length log ≤ max
      after_fetch rec (commit c) room rest =
          rec _ log _ _ (ground (arith, length-append result ((k, c) ∷ []))) rest
      after_fetch rec o room rest = rec result log queue visited h rest

  -- A log that `walk_history` gives under a limit has at most as many commits as the limit.
  pub length-walk_history :
      (fuel max : ℕ) (from : ContentHash) (log : Log)
      → walk_history get fuel from (some max) ≡ ok log
      → length log ≤ max
  unfolding walk_history
  length-walk_history fuel max from log e = length-history fuel max [] log _ _ (omega arith) e

-- More rounds than there can be.
abbrev pub history_fuel : Dict ContentHash Object → ℕ
history_fuel d = 2 + length (all_parents d)

module _ (get : ContentHash → Result (Option Object)) (d : Dict ContentHash Object)
    (stored : (h : ContentHash) → get h ≡ ok (lookup h d)) where
  history_ends :
      (fuel : ℕ) (limit : Option ℕ) (result : Log) (queue visited : List ContentHash)
      → length queue + unseen visited (all_parents d) < fuel
      → history get fuel limit result queue visited ≢ out_of_fuel
  unfolding history
  history_ends zero limit result queue visited h = absurd (omega arith)
  history_ends (suc fuel) limit result [] visited h = λ e. cc
  history_ends (suc fuel) limit result (k ∷ queue) visited h =
      elim (Bool-cases (limit_reached limit (length result))) [
        | inl full ↦ rw (full, history) (λ e. cc)
        | inr room ↦
            rw (room, history)
              (>>=-ne-out_of_fuel (fetch get k) _ (fetch-ne-out_of_fuel get d stored k)
                (after_fetch (history_ends fuel limit)))
      ]
    where
      after_fetch :
          ((result : Log) (queue visited : List ContentHash)
            → length queue + unseen visited (all_parents d) < fuel
            → history get fuel limit result queue visited ≢ out_of_fuel)
          → (o : Object) → fetch get k ≡ ok o
          → (elim o as (λ _. Result Log) [
            | commit c ↦
                let (visited', queue') = enqueue c.parents visited queue in
                history get fuel limit (result ++ (k, c) ∷ []) queue' visited'
            | _ ↦ history get fuel limit result queue visited
          ])
            ≢ out_of_fuel
      after_fetch rec (commit c) f = rec _ _ _ (
          omega (
            arith,
            (enqueue-Grows c.parents visited queue).paid (all_parents d)
                (fetched-Within get d stored k (commit c) f),
          ))
      after_fetch rec o f = rec result queue visited (omega arith)

  -- Over a store that holds the objects of a finite map, `walk_history` ends from any hash and with
  -- any limit within `history_fuel` rounds.
  pub walk_history_ends :
      (from : ContentHash) (limit : Option ℕ)
      → walk_history get (history_fuel d) from limit ≢ out_of_fuel
  unfolding walk_history
  walk_history_ends from limit =
      history_ends (history_fuel d) limit [] (from ∷ []) (from ∷ [])
        (omega (arith, unseen-le-length (from ∷ []) (all_parents d)))
