-- ===== src/Database/Tables.antt =====
-- The statements: a table is a list of rows, and a statement reads or writes every row that
-- satisfies its WHERE clause.
use saarathi.Common.{Bool, List, [], ◌∷◌, if◌then◌else◌}

module _ {ℓ} {A : Type ℓ} where
  -- `UPDATE … SET f WHERE p`
  unfoldable pub update : (A → Bool) → (A → A) → List A → List A
  update p f [] = []
  update p f (row ∷ rows) = (if p row then f row else row) ∷ update p f rows

  -- `RETURNING`: the updated rows
  unfoldable pub updated : (A → Bool) → (A → A) → List A → List A
  updated p f [] = []
  updated p f (row ∷ rows) = if p row then f row ∷ updated p f rows else updated p f rows
