-- ===== src/Database/Tools.antt =====
-- backend/app/repositories/tool_executions.py: the traces of the tools that a turn has run.
use mathlib.Core.List.{Memᴰ}
use saarathi.Common.{
  zero, suc, leb, ap, ℕ, ◌≤◌, Text, codes, Bool, true, false, not, ◌&&◌, ◌||◌, Option, none, some,
  List, [], ◌∷◌, length, take, is_empty, ltb, if◌then◌else◌, ◌≡◌, refl, arith, length-take-le, inl,
  inr, Bool-cases,
}
use saarathi.Exec.{Outcome, returned, raises, runtime_error, integrity_error}

pub data ToolStatus : Type 0 where
  success failure timeout : ToolStatus

-- `ToolTrace` (backend/app/agents/protocol.py), without the arguments, which are not stored; the
-- status `error` is `failure`
pub record ToolTrace : Type 0 where
  pub tool_name : Text
  pub iteration : ℕ
  pub result_excerpt : Text
  pub status : ToolStatus
  pub error : Option Text
  pub duration_ms : ℕ

pub record ToolExecution : Type 0 where
  pub message_id : ℕ
  pub agent_id : Option ℕ
  pub trace : ToolTrace

-- `RESULT_EXCERPT_MAX`
abbrev pub result_excerpt_max : ℕ
result_excerpt_max = 4096

abbrev pub is_success : ToolStatus → Bool
is_success success = true
is_success _ = false

abbrev pub has_text : Option Text → Bool
has_text none = false
has_text (some t) = not (is_empty t)

-- the guard that mirrors `ck_tool_error`
abbrev pub explained : ToolTrace → Bool
explained trace = is_success trace.status || has_text trace.error

abbrev pub truncated : Text → Text
truncated excerpt =
    if ltb result_excerpt_max (length excerpt) then take result_excerpt_max excerpt else excerpt

abbrev pub row_of : ℕ → Option ℕ → ToolTrace → ToolExecution
row_of message_id agent_id trace = record {
  message_id = message_id;
  agent_id = agent_id;
  trace = record trace { result_excerpt = truncated trace.result_excerpt };
}

abbrev pub add_row : ToolExecution → Outcome (List ToolExecution) → Outcome (List ToolExecution)
add_row row (returned rows) = returned (row ∷ rows)
add_row row (raises e) = raises e

-- The rows of a batch; an unexplained failure raises before any is written.
unfoldable pub rows_of : ℕ → Option ℕ → List ToolTrace → Outcome (List ToolExecution)
rows_of message_id agent_id [] = returned []
rows_of message_id agent_id (trace ∷ traces) =
    let rest = rows_of message_id agent_id traces in
    if explained trace
    then add_row (row_of message_id agent_id trace) rest
    else raises (runtime_error (codes "ck_tool_error"))

-- The CHECK constraints of the table that the guard does not mirror.
abbrev pub iteration_ok : ToolExecution → Bool
iteration_ok row = leb 1 row.trace.iteration && leb row.trace.iteration 10

unfoldable pub iterations_ok : List ToolExecution → Bool
iterations_ok [] = true
iterations_ok (row ∷ rows) = iteration_ok row && iterations_ok rows

-- `add_all` and `flush`: one violation refuses the batch
abbrev pub flush_batch : Outcome (List ToolExecution) → Outcome (List ToolExecution)
unfolding iterations_ok
flush_batch (raises e) = raises e
flush_batch (returned rows) = if iterations_ok rows then returned rows else raises integrity_error

unfoldable pub bulk_insert : ℕ → Option ℕ → List ToolTrace → Outcome (List ToolExecution)
unfolding rows_of flush_batch
bulk_insert message_id agent_id traces = flush_batch (rows_of message_id agent_id traces)

-- what is written of a trace
pub record Written (message_id : ℕ) (agent_id : Option ℕ) (trace : ToolTrace) (row : ToolExecution)
    : Type 0 where
  pub of_message : row.message_id ≡ message_id
  pub of_agent : row.agent_id ≡ agent_id
  pub excerpt : row.trace.result_excerpt ≡ take result_excerpt_max trace.result_excerpt
  pub short : length row.trace.result_excerpt ≤ result_excerpt_max
  pub same_error : row.trace.error ≡ trace.error
  pub has_error : explained row.trace ≡ true

-- one row for each trace, in their order
pub data Rows (message_id : ℕ) (agent_id : Option ℕ)
    : List ToolTrace → List ToolExecution → Type 0 where
  no_rows : Rows message_id agent_id [] []
  with_row :
      (trace : ToolTrace) (traces : List ToolTrace) (row : ToolExecution)
      (rows : List ToolExecution)
      → Written message_id agent_id trace row
      → Rows message_id agent_id traces rows
      → Rows message_id agent_id (trace ∷ traces) (row ∷ rows)

-- What becomes of a batch.
pub data Fate (message_id : ℕ) (agent_id : Option ℕ) (traces : List ToolTrace)
    : Outcome (List ToolExecution) → Type 0 where
  written :
      (rows : List ToolExecution)
      → Rows message_id agent_id traces rows
      → iterations_ok rows ≡ true
      → Fate message_id agent_id traces (returned rows)
  unexplained :
      (trace : ToolTrace)
      → Memᴰ trace traces
      → explained trace ≡ false
      → Fate message_id agent_id traces (raises (runtime_error (codes "ck_tool_error")))
  out_of_range :
      (rows : List ToolExecution)
      → Rows message_id agent_id traces rows
      → iterations_ok rows ≡ false
      → Fate message_id agent_id traces (raises integrity_error)

take_short : (n : ℕ) (t : Text) → length t ≤ n → t ≡ take n t
take_short zero [] h = refl
take_short zero (x ∷ t) h = absurd (omega arith)
take_short (suc n) [] h = refl
take_short (suc n) (x ∷ t) h = ap (λ l. x ∷ l) (take_short n t (omega arith))

truncated-take : (t : Text) → truncated t ≡ take result_excerpt_max t
truncated-take t = elim (Bool-cases (ltb result_excerpt_max (length t))) [
  | inl e ↦ rw e
  | inr e ↦ rw e (take_short result_excerpt_max t (ground arith))
]

Written-row_of :
    (message_id : ℕ) (agent_id : Option ℕ) (trace : ToolTrace)
    → explained trace ≡ true
    → Written message_id agent_id trace (row_of message_id agent_id trace)
Written-row_of message_id agent_id trace e = record {
  of_message = refl;
  of_agent = refl;
  excerpt = truncated-take trace.result_excerpt;
  short =
      rw (truncated-take trace.result_excerpt)
        (length-take-le result_excerpt_max trace.result_excerpt);
  same_error = refl;
  has_error = e;
}

-- the batch before it is flushed
data Built (message_id : ℕ) (agent_id : Option ℕ) (traces : List ToolTrace)
    : Outcome (List ToolExecution) → Type 0 where
  built :
      (rows : List ToolExecution)
      → Rows message_id agent_id traces rows
      → Built message_id agent_id traces (returned rows)
  stopped :
      (trace : ToolTrace)
      → Memᴰ trace traces
      → explained trace ≡ false
      → Built message_id agent_id traces (raises (runtime_error (codes "ck_tool_error")))

Built-add_row :
    (message_id : ℕ) (agent_id : Option ℕ) (trace : ToolTrace) (traces : List ToolTrace)
    (o : Outcome (List ToolExecution))
    → explained trace ≡ true
    → Built message_id agent_id traces o
    → Built message_id agent_id (trace ∷ traces) (add_row (row_of message_id agent_id trace) o)
Built-add_row message_id agent_id trace traces _ e (built rows r) =
    built _ (with_row trace traces _ rows (Written-row_of message_id agent_id trace e) r)
Built-add_row message_id agent_id trace traces _ e (stopped t m n) = stopped t (Memᴰ.tail m) n

rows_of-Built :
    (message_id : ℕ) (agent_id : Option ℕ) (traces : List ToolTrace)
    → Built message_id agent_id traces (rows_of message_id agent_id traces)
unfolding rows_of
rows_of-Built message_id agent_id [] = built [] no_rows
rows_of-Built message_id agent_id (trace ∷ traces) = elim (Bool-cases (explained trace)) [
  | inr e ↦ rw e (stopped trace (Memᴰ.head refl) e)
  | inl e ↦ rw e (
      Built-add_row message_id agent_id trace traces _ e (rows_of-Built message_id agent_id traces))
]

-- A batch is written as a whole, one row for each trace and in their order, each with the first 4096
-- characters of its excerpt and, if the tool has failed, an error; or it is refused as a whole, and
-- then a failure among the traces has no error, or a row has an iteration out of the table's range.
pub bulk_insert-Fate :
    (message_id : ℕ) (agent_id : Option ℕ) (traces : List ToolTrace)
    → Fate message_id agent_id traces (bulk_insert message_id agent_id traces)
unfolding bulk_insert
bulk_insert-Fate message_id agent_id traces = go _ (rows_of-Built message_id agent_id traces)
  where
    go :
        (o : Outcome (List ToolExecution))
        → Built message_id agent_id traces o
        → Fate message_id agent_id traces (flush_batch o)
    go _ (stopped t m n) = unexplained t m n
    go _ (built rows r) = elim (Bool-cases (iterations_ok rows)) [
      | inl e ↦ rw e (written rows r e)
      | inr e ↦ rw e (out_of_range rows r e)
    ]
