-- ===== src/Api/Serializer.antt =====
-- What simulator_app/api/serializers.py checks of a document, against what the scheduler checks.
use databus_sim.Prelude.{
  String, ◌≡◌, ◌↔◌, refl, Bool, true, false, ◌&&◌, Option, some, List, [], ◌∷◌, All, All-imp, arith,
  contains, eq_refl, str_eq, inl, inr, Option-cases, if◌then◌else◌,
}
use databus_sim.Effect.{ok}
use databus_sim.Scheduler.{
  Entry, Document, Instant, StartTime, is_direction, is_relationship, relationship_of, parse_dt,
  validate_entry, validate_runs,
}
use databus_sim.Scheduler.Validation.{validate_runs_iff, parse_dt-Reads}
use databus_sim.Api.{validated, has_directions, has_fresh_ids}

fresh_step :
    (eid : String) (seen : List String) (rest : Bool)
    → (if str_eq eid "" then false else if contains eid seen then false else rest) ≡ true
    → (str_eq eid "" ≡ false) × (contains eid seen ≡ false) × (rest ≡ true)
fresh_step eid seen rest h = ground arith

both : (a b : Bool) → (a && b) ≡ true → (a ≡ true) × (b ≡ true)
both a b h = ground arith

module _ (fromisoformat : String → Option Instant) where
  -- The start time is there and can be read, with a timezone.
  abbrev pub HasStart : Entry → Type 0
  HasStart e =
      (start : StartTime) × (t : Instant) × (e.start_time ≡ some start)
      × (parse_dt fromisoformat start ≡ ok t)

  validate_entry-HasStart :
      (e : Entry)
      → HasStart e
      → is_direction e.direction_id ≡ true
      → is_relationship (relationship_of e) ≡ true
      → validate_entry fromisoformat e ≡ ok tt
  unfolding validate_entry
  validate_entry-HasStart e (start, t, starts, read) d r = ground arith

  validate_runs-fresh :
      (seen : List String) (runs : List Entry)
      → has_fresh_ids seen runs ≡ true
      → has_directions runs ≡ true
      → All (λ e. is_relationship (relationship_of e) ≡ true) runs
      → All HasStart runs
      → validate_runs fromisoformat seen runs ≡ ok tt
  unfolding has_fresh_ids has_directions validate_runs
  validate_runs-fresh seen [] fresh ways rels starts = refl
  validate_runs-fresh seen (e ∷ runs) fresh ways rels starts =
      let (way, ways') = both (is_direction e.direction_id) (has_directions runs) ways in
      let valid = validate_entry-HasStart e starts.0 way rels.0 in
      elim (Option-cases e.id) [
        | inl missing ↦
            let f = rw missing at fresh in
            let (filled, _, _) = fresh_step "" seen (has_fresh_ids ("" ∷ seen) runs) f in
            let same = eq_refl "" in cc
        | inr (eid, named) ↦
            let f = rw named at fresh in
            let (filled, new, later) = fresh_step eid seen (has_fresh_ids (eid ∷ seen) runs) f in
            let rest = validate_runs-fresh (eid ∷ seen) runs later ways' rels.1 starts.1 in
            rw named (rw (filled, new, valid, rest))
      ]

  -- For a document that the serializer of the API accepts, with relationships that its fields let
  -- through, the scheduler's own validation asks for one thing more: each start time can be read
  -- and has a timezone.
  pub validated_iff :
      (d : Document)
      → validated (some d) ≡ some d
      → All (λ e. is_relationship (relationship_of e) ≡ true) d.runs
      → (validate_runs fromisoformat [] d.runs ≡ ok tt) ↔ All HasStart d.runs
  unfolding validated
  validated_iff d accepted rels =
      let ways : has_directions d.runs ≡ true = ground arith in
      let fresh : has_fresh_ids [] d.runs ≡ true = ground arith in
      (
        (λ valid.
            let (ids, listed) = (validate_runs_iff fromisoformat d.runs).0 valid in
            All-imp
              (λ e v. (
                v.start,
                v.instant,
                v.starts,
                parse_dt-Reads fromisoformat v.start v.instant v.reads v.aware,
              ))
              d.runs listed.valid),
        (λ starts. validate_runs-fresh [] d.runs fresh ways rels starts),
      )
