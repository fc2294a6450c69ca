-- ===== src/Store.antt =====
-- The database (migrations/, and what the packages see of it through pgx): tables as lists of rows
-- in the order of insertion, statements as actions that the database may refuse.
mod Schema
pub use Schema.*
use txmill.Base.{
  ℕ, Option, none, some, List, [], ◌∷◌, ◌++◌, Bytes, Result, ok, err, Error, Bool, true, false,
}

-- The statements of the program, one for each call of pgx.
pub data Statement : Type 0 where
  begin commit : Statement
  insert_request insert_attempt insert_delivery : Statement
  insert_app copy_signers : Statement
  update_request update_attempt update_delivery : Statement
  select_attempts select_deliveries select_status : Statement
  select_treasury select_app select_policies : Statement
  list_signers : ℕ → Statement
  recent_topup insert_gas_attempt : ℕ → Statement
  count_attempts count_deliveries select_stuck : Statement

-- The database as one call of the program meets it: its clock, the UUID that the default of an
-- `id` column draws for each insertion, and the errors of the statements that fail.
pub record Postgres : Type 0 where
  pub now : ℕ
  pub new_id : Statement → ℕ
  pub failure : Statement → Option Error
  pub unique_violation : Error

-- Code that changes a state and may fail. What was written before a failure stays written.
abbrev pub Exec : Type 0 → Type 0 → Type 0
Exec S A = S → Result A × S

module _ {S A : Type 0} where
  abbrev pub pure : A → Exec S A
  pure a s = (ok a, s)

  abbrev pub fail : Error → Exec S A
  fail e s = (err e, s)

module _ {S A B : Type 0} where
  abbrev pub continue : Result A → (A → Exec S B) → Exec S B
  continue (ok a) f s = f a s
  continue (err e) f s = (err e, s)

  infixl 5 ◌>>=◌ ◌>>◌
  abbrev pub ◌>>=◌ : Exec S A → (A → Exec S B) → Exec S B
  ◌>>=◌ m f s = let (r, s') = m s in continue r f s'

  abbrev pub ◌>>◌ : Exec S A → Exec S B → Exec S B
  m >> n = m >>= λ _. n

abbrev unless : {A : Type 0} → Option Error → Exec Db A → Exec Db A
unless none m d = m d
unless (some e) m d = (err e, d)

-- One statement: it fails and changes nothing, or does its work.
abbrev pub statement : {A : Type 0} → Postgres → Statement → Exec Db A → Exec Db A
statement pg s m = unless (pg.failure s) m

abbrev settle : {A : Type 0} → Db → Option Error → Result A × Db → Result A × Db
settle old failure (err e, d) = (err e, old)
settle old (some e) (ok a, d) = (err e, old)
settle old none (ok a, d) = (ok a, d)

-- `Begin`, the statements, `Commit`; the deferred `Rollback` undoes them after an error.
abbrev pub transaction : {A : Type 0} → Postgres → Exec Db A → Exec Db A
transaction pg m = statement pg begin (λ d. settle d (pg.failure commit) (m d))

-- `NULLIF(text, '')`
abbrev pub nullif_empty : Bytes → Option Bytes
nullif_empty [] = none
nullif_empty (c ∷ s) = some (c ∷ s)

-- `COALESCE(column, '')`
abbrev pub or_empty : Option Bytes → Bytes
or_empty none = []
or_empty (some s) = s
