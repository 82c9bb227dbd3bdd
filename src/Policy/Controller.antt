-- ===== src/Policy/Controller.antt =====
-- `PolicyController` of tools/policy_controller.py: one candidate per round, never one that was
-- tried before.
pub mod Fresh
use chaos_atlas.Prelude.{
  ℕ, String, ◌≡◌, refl, Bool, true, false, not, ◌&&◌, Option, none, some, List, [], ◌∷◌, ◌==◌,
  if◌then◌else◌, select, member, nonempty, length, ℤ, pos, ltb_ℤ, pos_part, leb, format,
}
use chaos_atlas.Result.{Result, ok, err, value_error, ◌>>=◌, ◌>>◌, raise_if}
use chaos_atlas.Value.{Value, null, str, obj, Dict, get, truthy, text}
use chaos_atlas.Policy.Gate.{
  Scoring, Selection, modes, deciding_modes, select_candidates_with_policy,
}

pub record Controller : Type 0 where
  pub candidates : List Dict
  pub policy_state : Dict
  pub mode : String
  pub budget : ℤ
  pub context : Dict

-- `__init__`
unfoldable pub new_controller : List Dict → Dict → String → ℤ → Dict → Result Controller
new_controller candidates policy_state mode budget context = do
  raise_if (not (member mode modes)) value_error (format ("unsupported policy mode: " ∷ mode ∷ []))
  raise_if (ltb_ℤ budget (pos 1)) value_error "policy budget must be a positive integer"
  ok (record {
    candidates = candidates;
    policy_state = policy_state;
    mode = mode;
    budget = budget;
    context = context;
  })

abbrev pub untried : List String → List Dict → List Dict
untried attempted candidates =
    select (λ c. not (member (text (get "candidate_id" c)) attempted)) candidates

abbrev pub as_values : List Dict → List Value
as_values [] = []
as_values (d ∷ ds) = obj d ∷ as_values ds

pub record Decision : Type 0 where
  pub candidate_id : Option String
  pub execution : List String
  pub reason : Value
  pub selection : Option Selection

abbrev pub first : List String → Option String
first [] = none
first (id ∷ ids) = some id

-- In the deciding modes a stop reason leaves nothing to execute.
abbrev pub executable : String → Selection → List String
executable mode selection =
    if member mode deciding_modes && truthy selection.stop_reason
    then []
    else selection.execution_ids

abbrev blocked_decision : Decision
blocked_decision = record {
  candidate_id = none;
  execution = [];
  reason = str "blocked";
  selection = none;
}

abbrev pub decision_of : String → Selection → Decision
decision_of mode selection = record {
  candidate_id = first (executable mode selection);
  execution = executable mode selection;
  reason = selection.stop_reason;
  selection = some selection;
}

abbrev smaller : ℤ → ℕ → ℤ
smaller a n = if ltb_ℤ a (pos n) then a else pos n

unfoldable pub decide_among : Scoring → Controller → List Dict → Result Decision
decide_among scoring controller [] = ok blocked_decision
decide_among scoring controller (c ∷ cs) = do
  selection ←
      select_candidates_with_policy scoring controller.mode controller.policy_state
        controller.context (as_values (c ∷ cs)) (smaller controller.budget (length (c ∷ cs)))
        (pos 1)
  ok (decision_of controller.mode selection)

unfoldable pub next_decision : Scoring → Controller → List String → Result Decision
next_decision scoring controller attempted =
    decide_among scoring controller (untried attempted controller.candidates)
