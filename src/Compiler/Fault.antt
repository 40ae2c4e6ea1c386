-- ===== src/Compiler/Fault.antt =====
-- compiler/sql_compiler.py, `CompileError`: what the compiler raises, and results that may be raised.
use future_bi.Base.{String, List, [], ◌∷◌}
use future_bi.Semantic.Schema.{RelativeUnit}

-- `CompileError` by its messages; `bad_date` is Python's own error for a date that does not exist, and
-- `no_alias` its `KeyError` for a table without one.
pub data Fault : Type 0 where
  unregistered : String → Fault
  bad_type bad_float : Fault
  bad_comparison : Fault
  bad_unit : RelativeUnit → Fault
  bad_value : Fault
  window_here : Fault
  no_time_dimension two_time_dimensions : Fault
  no_time_window : Fault
  conflict : Fault
  bad_partition bad_order : String → Fault
  bad_date : Fault
  no_alias : String → Fault

pub data Compiled (A : Type 0) : Type 0 where
  ok : A → Compiled A
  fail : Fault → Compiled A

infixl 5 ◌>>=◌
abbrev pub ◌>>=◌ : {A B : Type 0} → Compiled A → (A → Compiled B) → Compiled B
ok a >>= f = f a
fail e >>= f = fail e

-- a list comprehension whose element may raise
unfoldable pub map_all : {A B : Type 0} → (A → Compiled B) → List A → Compiled (List B)
map_all f [] = ok []
map_all f (x ∷ l) = do y ← f x; rest ← map_all f l; ok (y ∷ rest)
