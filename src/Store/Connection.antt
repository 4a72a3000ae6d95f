-- ===== src/Store/Connection.antt =====
-- The connection of src/store/mod.rs, over its tables: any use of it may fail, and a transaction that
-- fails leaves the tables as they were.
pub mod Follows
use npmfilter.Prelude.{ℕ, ◌+◌, Bool, if◌then◌else◌}
use npmfilter.Prelude.Result.{Result, ok, err}
use npmfilter.Store.Errors.{StoreError, query}
use npmfilter.Store.Tables.{Tables}

-- `fails n`: whether the n-th use of the connection will fail.
pub record Connection : Type 0 where
  pub tables : Tables
  pub uses : ℕ
  pub fails : ℕ → Bool

abbrev pub Action {ℓ} : Type ℓ → Type ℓ
Action A = Connection → Result StoreError A × Connection

abbrev pub used : Connection → Connection
used c = record c { uses = c.uses + 1 }

module _ {A : Type 0} where
  abbrev pub pure : A → Action A
  pure a c = (ok a, c)

  abbrev pub raise : StoreError → Action A
  raise e c = (err e, c)

  abbrev pub lift : Result StoreError A → Action A
  lift r c = (r, c)

infixl 5 ◌>>=◌ ◌>>◌
abbrev pub ◌>>=◌ : {A B : Type 0} → Action A → (A → Action B) → Action B
◌>>=◌ m f c = let (r, c') = m c in elim r [ ok a ↦ f a c' | err e ↦ raise e c' ]

abbrev pub ◌>>◌ : {A B : Type 0} → Action A → Action B → Action B
m >> k = m >>= λ _. k

module _ {A : Type 0} where
  -- A statement that answers with a value and may change the tables.
  unfoldable pub statement : (Tables → A × Tables) → Action A
  statement f c =
      let (a, tables) = f c.tables in
      if c.fails c.uses then (err query, used c) else (ok a, record (used c) { tables = tables })

  unfoldable pub select : (Tables → A) → Action A
  select f c = (if c.fails c.uses then err query else ok (f c.tables), used c)

-- A statement without an answer.
unfoldable pub execute : (Tables → Tables) → Action (Unit {0})
execute f c =
    if c.fails c.uses then (err query, used c) else (ok tt, record (used c) { tables = f c.tables })

-- What may fail but leaves the tables alone: `prepare`, and the begin and the commit of a transaction.
unfoldable pub attempt : Action (Unit {0})
attempt c = (if c.fails c.uses then err query else ok tt, used c)

module _ {A : Type 0} where
  abbrev pub roll_back :
      Tables → Result StoreError A × Connection → Result StoreError A × Connection
  roll_back before (ok a, c) = (ok a, c)
  roll_back before (err e, c) = (err e, record c { tables = before })

  unfoldable pub in_transaction : Action A → Action A
  in_transaction body c = roll_back c.tables ((do attempt; a ← body; attempt; pure a) c)
