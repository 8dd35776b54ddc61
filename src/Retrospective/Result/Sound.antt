-- ===== src/Retrospective/Result/Sound.antt =====
-- What a report has that passes the checks of src/afk/retrospective_result.py.
use afk_composable_pipeline.Common.{
  ℕ, suc, String, List, [], ◌∷◌, Option, none, some, Bool, true, false, not, ◌&&◌, ◌||◌, map, all,
  str_eq, ◌≡◌, refl, ap, arith, eq_iff, leb, subst,
}
use mathlib.Core.Path.{fun_ext}
use afk_composable_pipeline.Retrospective.Summary.{max_summary_bytes}
use afk_composable_pipeline.Common.Order.{is_in, all_distinct}
use afk_composable_pipeline.Json.{Json, get, is_str, is_dict, one_of}
use afk_composable_pipeline.Json.Lists.{elements}
use afk_composable_pipeline.Errors.{ok, succeeded, passed_check, same_value}
use afk_composable_pipeline.Retrospective.Result.Citation.{is_citation}
use afk_composable_pipeline.Retrospective.Result.{
  JsonText, byte_count, is_collection, check_citations, validate_finding, validate_findings, id_of,
  check_addresses, addresses_of, validate_proposal, validate_proposals, check_result, valid_result,
  valid_summary, read_summary, loaded_summary, normalize_retrospective_result, categories,
  confidence, scopes, priorities,
}

-- Every citation of the finding resolves, and there is one.
abbrev pub is_cited : Json → Json → Bool
is_cited summary v =
    is_collection (get v "evidence") && all (is_citation summary) (elements (get v "evidence"))

-- Every address of the proposal is known, none is repeated, and there is one.
abbrev pub is_addressed : (String → Bool) → Json → Bool
is_addressed known v =
    is_collection (get v "addresses") && all_distinct (addresses_of v) && all known (addresses_of v)

check_citations_sound :
    (summary : Json) (index n : ℕ) (vs : List Json)
    → check_citations summary index n vs ≡ ok tt
    → all (is_citation summary) vs ≡ true
unfolding check_citations
check_citations_sound summary index n [] h = refl
check_citations_sound summary index n (v ∷ vs) h =
    let p = passed_check (is_citation summary v) _ _ h in
    rw p.0 (check_citations_sound summary index (suc n) vs p.1)

check_addresses_sound :
    (ids : List String) (index n : ℕ) (names : List String)
    → check_addresses ids index n names ≡ ok tt
    → all (λ s. is_in s ids) names ≡ true
unfolding check_addresses
check_addresses_sound ids index n [] h = refl
check_addresses_sound ids index n (s ∷ ss) h =
    let p = passed_check (is_in s ids) _ _ h in
    rw p.0 (check_addresses_sound ids index (suc n) ss p.1)

finding_cited :
    (summary : Json) (index : ℕ) (v : Json)
    → validate_finding summary index v ≡ ok tt
    → is_cited summary v ≡ true
unfolding validate_finding
finding_cited summary index v h =
    let p = passed_check (not (is_dict v) || one_of categories (get v "category")) _ _ h in
    let q = passed_check (not (is_dict v) || one_of confidence (get v "confidence")) _ _ p.1 in
    let r = passed_check (is_collection (get v "evidence")) _ _ q.1 in
    let s = succeeded (check_citations summary index 0 (elements (get v "evidence"))) r.1 in
    rw (r.0, check_citations_sound summary index 0 (elements (get v "evidence")) s.2) refl

proposal_addressed :
    (ids : List String) (index : ℕ) (v : Json)
    → validate_proposal ids index v ≡ ok tt
    → is_addressed (λ s. is_in s ids) v ≡ true
unfolding validate_proposal
proposal_addressed ids index v h =
    let p = passed_check (not (is_dict v) || one_of scopes (get v "scope")) _ _ h in
    let q = passed_check (not (is_dict v) || one_of priorities (get v "priority")) _ _ p.1 in
    let r = passed_check (is_collection (get v "addresses")) _ _ q.1 in
    let s = passed_check (all is_str (elements (get v "addresses"))) _ _ r.1 in
    let t = passed_check (all_distinct (addresses_of v)) _ _ s.1 in
    let u = succeeded (check_addresses ids index 0 (addresses_of v)) t.1 in
    rw (r.0, t.0, check_addresses_sound ids index 0 (addresses_of v) u.2) refl

-- None of the ids passes the test.
abbrev pub none_of : (String → Bool) → List String → Bool
none_of p ids = all (λ i. not (p i)) ids

not_again :
    (x : String) (seen : List String) (ids : List String)
    → none_of (λ i. is_in i (x ∷ seen)) ids ≡ true
    → (is_in x ids ≡ false) × (none_of (λ i. is_in i seen) ids ≡ true)
unfolding is_in
not_again x seen [] h = (refl, refl)
not_again x seen (y ∷ ys) h = ground (arith, not_again x seen ys, eq_iff x y, eq_iff y x)

-- What the loop over the findings gives for the ids seen before it.
record FindingsSound (summary : Json) (seen : List String) (vs : List Json) (out : List String)
    : Type 0 where
  distinct : all_distinct (map id_of vs) ≡ true
  fresh : none_of (λ i. is_in i seen) (map id_of vs) ≡ true
  cited : all (is_cited summary) vs ≡ true
  known : (s : String) → is_in s out ≡ (is_in s seen || is_in s (map id_of vs))

findings_nil :
    (summary : Json) (seen out : List String) → seen ≡ out → FindingsSound summary seen [] out
unfolding is_in all_distinct
findings_nil summary seen out h = record {
  distinct = refl;
  fresh = refl;
  cited = refl;
  known = λ s. rw (← h) (ground arith);
}

findings_cons :
    (summary : Json) (seen : List String) (v : Json) (vs : List Json) (out : List String)
    → is_cited summary v ≡ true
    → is_in (id_of v) seen ≡ false
    → FindingsSound summary (id_of v ∷ seen) vs out
    → FindingsSound summary seen (v ∷ vs) out
unfolding is_in all_distinct
findings_cons summary seen v vs out here new rest =
    let apart = not_again (id_of v) seen (map id_of vs) rest.fresh in
    record {
      distinct = rw (apart.0, rest.distinct) refl;
      fresh = rw (new, apart.1) refl;
      cited = rw (here, rest.cited) refl;
      known = λ s. ground (arith, rest.known s);
    }

validate_findings_sound :
    (summary : Json) (index : ℕ) (seen : List String) (vs : List Json) (out : List String)
    → validate_findings summary index seen vs ≡ ok out
    → FindingsSound summary seen vs out
unfolding validate_findings
validate_findings_sound summary index seen [] out h = findings_nil summary seen out (same_value h)
validate_findings_sound summary index seen (v ∷ vs) out h =
    let p = succeeded (validate_finding summary index v) h in
    let q = passed_check (not (is_in (id_of v) seen)) _ _ p.1 in
    findings_cons summary seen v vs out (finding_cited summary index v p.2) (ground (arith, q.0))
      (validate_findings_sound summary (suc index) (id_of v ∷ seen) vs out q.1)

-- What the loop over the proposals checks.
record ProposalsSound (ids seen : List String) (vs : List Json) : Type 0 where
  distinct : all_distinct (map id_of vs) ≡ true
  fresh : none_of (λ i. is_in i seen) (map id_of vs) ≡ true
  apart : none_of (λ i. is_in i ids) (map id_of vs) ≡ true
  addressed : all (is_addressed (λ s. is_in s ids)) vs ≡ true

proposals_cons :
    (ids seen : List String) (v : Json) (vs : List Json)
    → is_addressed (λ s. is_in s ids) v ≡ true
    → (is_in (id_of v) ids || is_in (id_of v) seen) ≡ false
    → ProposalsSound ids (id_of v ∷ seen) vs
    → ProposalsSound ids seen (v ∷ vs)
unfolding is_in all_distinct
proposals_cons ids seen v vs here new rest =
    let apart = not_again (id_of v) seen (map id_of vs) rest.fresh in
    record {
      distinct = rw (apart.0, rest.distinct) refl;
      fresh = ground (arith, new, apart.1);
      apart = ground (arith, new, rest.apart);
      addressed = rw (here, rest.addressed) refl;
    }

validate_proposals_sound :
    (ids : List String) (index : ℕ) (seen : List String) (vs : List Json) (out : List String)
    → validate_proposals ids index seen vs ≡ ok out
    → ProposalsSound ids seen vs
unfolding validate_proposals all_distinct
validate_proposals_sound ids index seen [] out h = record {
  distinct = refl;
  fresh = refl;
  apart = refl;
  addressed = refl;
}
validate_proposals_sound ids index seen (v ∷ vs) out h =
    let p = succeeded (validate_proposal ids index v) h in
    let q = passed_check (not (is_in (id_of v) ids || is_in (id_of v) seen)) _ _ p.1 in
    proposals_cons ids seen v vs (proposal_addressed ids index v p.2) (ground (arith, q.0))
      (validate_proposals_sound ids (suc index) (id_of v ∷ seen) vs out q.1)

abbrev pub findings_of : Json → List Json
findings_of v = elements (get v "process_findings")

abbrev pub proposals_of : Json → List Json
proposals_of v = elements (get v "improvement_proposals")

abbrev pub is_finding : Json → String → Bool
is_finding v s = is_in s (map id_of (findings_of v))

-- What a report has that was accepted for the summary.
pub record IsSound (summary v : Json) : Type 0 where
  pub findings_distinct : all_distinct (map id_of (findings_of v)) ≡ true
  pub proposals_distinct : all_distinct (map id_of (proposals_of v)) ≡ true
  pub apart : none_of (is_finding v) (map id_of (proposals_of v)) ≡ true
  pub cited : all (is_cited summary) (findings_of v) ≡ true
  pub addressed : all (is_addressed (is_finding v)) (proposals_of v) ≡ true

check_result-IsSound :
    (summary v : Json) (out : List String) → check_result summary v ≡ ok out → IsSound summary v
unfolding check_result
check_result-IsSound summary v out h =
    let p = passed_check (valid_result summary v) _ _ h in
    let q = succeeded (validate_findings summary 0 [] (findings_of v)) p.1 in
    let f = validate_findings_sound summary 0 [] (findings_of v) q.0 q.2 in
    let g = validate_proposals_sound q.0 0 [] (proposals_of v) out q.1 in
    let same : (λ (s : String). is_in s q.0) ≡ is_finding v =
      fun_ext (λ s. unfold is_in in f.known s) in
    record {
      findings_distinct = f.distinct;
      proposals_distinct = g.distinct;
      apart =
          subst (λ (k : String → Bool). none_of k (map id_of (proposals_of v)) ≡ true) same g.apart;
      cited = f.cited;
      addressed =
          subst (λ (k : String → Bool). all (is_addressed k) (proposals_of v) ≡ true) same
            g.addressed;
    }

loaded_sound :
    (json : JsonText) (text : String) (loaded : Option Json) (summary : Json)
    → loaded_summary json text loaded ≡ ok summary
    → (loaded ≡ some summary) × (valid_summary summary ≡ true)
loaded_sound json text none summary h = ground arith
loaded_sound json text (some found) summary h =
    let p = passed_check (str_eq (json.dumps found) text && valid_summary found) _ _ h in
    let e : found ≡ summary = same_value p.1 in
    (ap some e, subst (λ x. valid_summary x ≡ true) e (ground (arith, p.0)))

-- In an accepted report the ids of the findings and those of the proposals are distinct and have
-- none in common, every finding has citations and each of them resolves in the loaded, valid
-- summary, and every proposal has addresses, which are distinct and ids of findings of the report.
pub normalize_retrospective_result-IsSound :
    (json : JsonText) (run_summary : String) (v r : Json)
    → normalize_retrospective_result json run_summary v ≡ ok r
    → (summary : Json) × (json.loads run_summary ≡ some summary)
      × (valid_summary summary ≡ true)
      × IsSound summary v
unfolding normalize_retrospective_result read_summary
normalize_retrospective_result-IsSound json run_summary v r h =
    let p = succeeded (read_summary json run_summary) h in
    let q = passed_check (leb (byte_count run_summary) max_summary_bytes) _ _ p.2 in
    let l = loaded_sound json run_summary (json.loads run_summary) p.0 q.1 in
    let c = succeeded (check_result p.0 v) p.1 in
    (p.0, l.0, l.1, check_result-IsSound p.0 v c.0 c.2)
