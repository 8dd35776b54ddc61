-- ===== src/Candidate/Merge/Mergeable.antt =====
-- What the checks before the merge command of src/afk/candidate.py ask for.
use afk_composable_pipeline.Common.{
  String, some, Bool, true, false, not, is_empty, ◌≡◌, refl, arith, all,
}
use afk_composable_pipeline.Json.{Json, Items, bool, str, get, eq}
use afk_composable_pipeline.Json.Laws.{eq-str, str_eq_lem}
use afk_composable_pipeline.Redaction.{TextRules}
use afk_composable_pipeline.Errors.{Failure, Result, ok, ◌>>=◌, guard, succeeded, passed_check}
use afk_composable_pipeline.Candidate.{
  Subject, Heads, verify_published, heads_agree, pr_facts_agree,
}
use afk_composable_pipeline.Candidate.Merge.Command.{
  MergeWorld, require_direct_merge_topology, needs_merge_queue, require_no_queue,
  require_no_automation, still_based, still_direct, still_ready, is_automated, automated_pr,
  automation_readable, compared_fields, matches_ready, may_merge,
}

not-true : (b : Bool) → not b ≡ true → b ≡ false
not-true true h = ground arith
not-true false h = refl

pub passed : (b : Bool) (failure : Failure) {u : Unit {0}} → guard b failure ≡ ok u → b ≡ true
passed true failure h = refl
passed false failure h = ground arith

-- Git showed the Candidate as the head of the worktree and of its branch, nothing uncommitted, and
-- the pinned base as the head of the base branch.
pub record HeadsAre (identity : Json) (subject : Subject) (heads : Heads) : Type 0 where
  pub local : heads.local_sha ≡ subject.candidate_sha
  pub clean : is_empty heads.dirty ≡ true
  pub remote : heads.remote_sha ≡ subject.candidate_sha
  pub target : eq (str heads.target_sha) (get identity "base_sha") ≡ true

-- The pull request is open, no draft, and has the Candidate as its head.
pub record PrIs (identity : Json) (subject : Subject) (pr : Json) : Type 0 where
  pub state : get pr "state" ≡ str "OPEN"
  pub head : get pr "headRefOid" ≡ str subject.candidate_sha
  pub branch : get pr "headRefName" ≡ str subject.branch
  pub base : eq (get pr "baseRefName") (get identity "base_branch") ≡ true
  pub number : eq (get pr "number") subject.pr_number ≡ true
  pub ready : eq (get pr "isDraft") (bool false) ≡ true

heads_are :
    (identity : Json) (subject : Subject) (heads : Heads) (pr : Json)
    → eq (str heads.target_sha) (get identity "base_sha") ≡ true
    → heads_agree subject.candidate_sha heads pr ≡ true
    → HeadsAre identity subject heads × (get pr "headRefOid" ≡ str subject.candidate_sha)
unfolding heads_agree
heads_are identity subject heads pr target h = (
  record {
    local = str_eq_lem heads.local_sha subject.candidate_sha (ground arith);
    clean = ground arith;
    remote = str_eq_lem heads.remote_sha subject.candidate_sha (ground arith);
    target = target;
  },
  eq-str (get pr "headRefOid") subject.candidate_sha (ground arith),
)

pr_is :
    (identity : Json) (subject : Subject) (pr : Json)
    → get pr "headRefOid" ≡ str subject.candidate_sha
    → pr_facts_agree identity subject (some false) pr ≡ true
    → PrIs identity subject pr
unfolding pr_facts_agree
pr_is identity subject pr head h = record {
  state = eq-str (get pr "state") "OPEN" (ground arith);
  head = head;
  branch = eq-str (get pr "headRefName") subject.branch (ground arith);
  base = ground arith;
  number = ground arith;
  ready = ground arith;
}

published :
    (identity : Json) (subject : Subject) (heads : Heads) (pr : Json) {u : Unit {0}}
    → verify_published identity subject heads pr (some false) ≡ ok u
    → HeadsAre identity subject heads × PrIs identity subject pr
unfolding verify_published
published identity subject heads pr h =
    let target = passed_check _ _ _ h in
    let agree = passed_check _ _ _ target.1 in
    let heads_facts = heads_are identity subject heads pr target.0 agree.0 in
    (heads_facts.0, pr_is identity subject pr heads_facts.1 (passed _ _ agree.1))

-- The base branch needs no merge queue, and the pull request is in none and has no automatic merge.
pub record IsDirect (branch_rules : Result Items) (automation : Result Json) : Type 0 where
  pub rules : Items
  pub rules_seen : branch_rules ≡ ok rules
  pub no_queue : needs_merge_queue rules ≡ false
  pub answer : Json
  pub answer_seen : automation ≡ ok answer
  pub not_automated : is_automated (automated_pr answer) ≡ false

no_queue_needed :
    (rules : Items) {u : Unit {0}} → require_no_queue rules ≡ ok u → needs_merge_queue rules ≡ false
unfolding require_no_queue
no_queue_needed rules h = not-true _ (passed _ _ (passed_check _ _ _ h).1)

unautomated :
    (pr value : Json) {u : Unit {0}}
    → require_no_automation pr value ≡ ok u
    → is_automated (automated_pr value) ≡ false
unfolding require_no_automation
unautomated pr value h =
    let readable = passed_check (automation_readable value) _ _ h in
    let same =
      passed_check (all (λ k. eq (get (automated_pr value) k) (get pr k)) compared_fields) _ _
        readable.1 in
    not-true _ (passed _ _ same.1)

direct :
    (branch_rules : Result Items) (automation : Result Json) (pr : Json) {u : Unit {0}}
    → require_direct_merge_topology branch_rules automation pr ≡ ok u
    → IsDirect branch_rules automation
unfolding require_direct_merge_topology
direct branch_rules automation pr h =
    let unqueued = succeeded (branch_rules >>= require_no_queue) h in
    let seen = succeeded branch_rules unqueued.2 in
    let answered = succeeded automation unqueued.1 in
    record {
      rules = seen.0;
      rules_seen = seen.2;
      no_queue = no_queue_needed seen.0 seen.1;
      answer = answered.0;
      answer_seen = answered.2;
      not_automated = unautomated pr answered.0 answered.1;
    }

-- What the last observations before the merge command showed.
pub record IsMergeable (world : MergeWorld) (identity : Json) (subject : Subject) : Type 0 where
  pub pr : Json
  pub pr_seen : world.viewed_prepared ≡ ok pr
  pub pr_is : PrIs identity subject pr
  pub heads : Heads
  pub heads_seen : world.heads_prepared ≡ ok heads
  pub heads_are : HeadsAre identity subject heads
  pub again : Json
  pub again_seen : world.viewed_again ≡ ok again
  pub unchanged : eq again pr ≡ true
  pub is_direct : IsDirect world.branch_rules world.automation
  pub target_sha : String
  pub target_seen : world.target_sha ≡ ok target_sha
  pub based : eq (str target_sha) (get identity "base_sha") ≡ true

module _ (rules : TextRules) (world : MergeWorld) (identity projection : Json) where
  pub mergeable :
      (subject : Subject) {u : Unit {0}}
      → may_merge rules world identity projection subject ≡ ok u
      → IsMergeable world identity subject
  unfolding may_merge still_ready still_direct still_based
  mergeable subject h =
      let viewed = succeeded world.viewed_prepared h in
      let shown = succeeded world.heads_prepared viewed.1 in
      let verified =
        succeeded (verify_published identity subject shown.0 viewed.0 (some false)) shown.1 in
      let facts = published identity subject shown.0 viewed.0 verified.2 in
      let ready =
        passed_check (matches_ready rules world identity projection subject viewed.0) _ _
          verified.1 in
      let looked = succeeded world.viewed_again ready.1 in
      let same = passed_check (eq looked.0 viewed.0) _ _ looked.1 in
      let straight =
        succeeded (require_direct_merge_topology world.branch_rules world.automation viewed.0)
          same.1 in
      let target = succeeded world.target_sha straight.1 in
      record {
        pr = viewed.0;
        pr_seen = viewed.2;
        pr_is = facts.1;
        heads = shown.0;
        heads_seen = shown.2;
        heads_are = facts.0;
        again = looked.0;
        again_seen = looked.2;
        unchanged = same.0;
        is_direct = direct world.branch_rules world.automation viewed.0 straight.2;
        target_sha = target.0;
        target_seen = target.2;
        based = passed _ _ target.1;
      }
