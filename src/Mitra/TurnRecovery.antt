-- ===== src/Mitra/TurnRecovery.antt =====
-- backend/app/integrations/mitra/turn_recovery.py: what became of a turn that was given up.
-- `Optional` fields that the code defaults to "" are texts here.
pub mod Fate
use saarathi.Common.{
  ℕ, zero, suc, Text, Bool, true, false, not, ◌&&◌, Option, none, some, List, [], ◌∷◌, strip,
  is_empty, mem_text, length, get_elem?, drop, last?, find, if◌then◌else◌,
}
use mathlib.Core.Option
use saarathi.Python.{ℤ}

pub data TurnOutcome : Type 0 where
  answered pending not_delivered : TurnOutcome

pub record ChatRow : Type 0 where
  pub id : ℤ
  pub from_user : Bool
  pub message : Text
  pub translated_message : Text
  pub stage : Text

-- `ChatRow.matches`
pub row_matches : ChatRow → Text → Bool
row_matches row text =
    let needle = strip text in
    if is_empty needle
    then false
    else mem_text needle (strip row.message ∷ strip row.translated_message ∷ [])

pub record Reconciliation : Type 0 where
  pub outcome : TurnOutcome
  pub bot_text : Text
  pub stage : Text
  pub last_row_id : Option ℤ

-- the test of the backward scan: a row of the user that holds the sent text
pub is_ours : Text → ChatRow → Bool
is_ours sent_text row = row.from_user && row_matches row sent_text

-- `for i in range(len(rows) - 1, -1, -1)`, with `n` rows left to look at. An index is always in
-- range; the branch for one that is not goes on.
user_index_below : List ChatRow → Text → ℕ → Option ℕ
user_index_below rows sent_text zero = none
user_index_below rows sent_text (suc i) = elim (get_elem? rows i) [
  | none ↦ user_index_below rows sent_text i
  | some row ↦ elim (is_ours sent_text row) [
    | true ↦ some i
    | false ↦ user_index_below rows sent_text i
  ]
]

abbrev user_index : List ChatRow → Text → Option ℕ
user_index rows sent_text = user_index_below rows sent_text (length rows)

abbrev pub not_from_user : ChatRow → Bool
not_from_user row = not row.from_user

abbrev pub last_id : List ChatRow → Option ℤ
last_id rows = Option.map (λ (row : ChatRow). row.id) (last? rows)

abbrev pub without_reply : TurnOutcome → Option ℤ → Reconciliation
without_reply outcome last = record {
  outcome = outcome;
  bot_text = [];
  stage = [];
  last_row_id = last;
}

abbrev pub with_reply : ChatRow → Reconciliation
with_reply row = record {
  outcome = answered;
  bot_text = strip row.message;
  stage = row.stage;
  last_row_id = some row.id;
}

-- what stands after the index of our row
reply_after : List ChatRow → Option ℕ → Reconciliation
reply_after rows none = without_reply not_delivered (last_id rows)
reply_after rows (some i) = elim (find not_from_user (drop (suc i) rows)) [
  | none ↦ without_reply pending (last_id rows)
  | some row ↦ with_reply row
]

unfoldable pub reconcile : List ChatRow → Text → Reconciliation
unfolding reply_after user_index_below is_ours row_matches
reconcile rows sent_text = reply_after rows (user_index rows sent_text)
