-- ===== src/Compiler/Sql/Joins.antt =====
-- A compiled query joins the tables of its fields, but not that of its time axis.
use future_bi.Base.{
  String, ◌≡◌, refl, true, Option, some, List, [], ◌∷◌, contains, arith, eq_iff, eq_refl,
}
use future_bi.Base.Dict.{Dict, lookup}
use future_bi.Semantic.Schema.{QueryDsl, TimeFilter}
use future_bi.Semantic.Catalog.{Catalog, JoinRule}
use future_bi.Compiler.From.{join_sql, joins_of, collect_tables, from_clause}

-- Every table that a query uses and that has a join rule is joined, by that rule.
pub joins_of-Complete :
    (c : Catalog) (tables : List String) (table : String) (rule : JoinRule) (rules : Dict JoinRule)
    → lookup table rules ≡ some rule
    → contains tables table ≡ true
    → contains (joins_of c tables rules) (join_sql c table rule) ≡ true
unfolding joins_of lookup
joins_of-Complete c tables table rule [] known used = absurd (ground arith)
joins_of-Complete c tables table rule ((t, r) ∷ rules) known used = ground (
  arith,
  joins_of-Complete c tables table rule rules,
  eq_iff t table,
  eq_refl (join_sql c table rule),
)

module _ {F : Type 0} where
  -- The tables that are joined do not depend on the time filter: a query on `refund_time` joins the
  -- refunds only if some metric, dimension or filter uses one of their fields.
  pub from_clause-time :
      (c : Catalog) (q : QueryDsl F) (tf : Option TimeFilter)
      → from_clause c (record q { time_filter = tf }) ≡ from_clause c q
  unfolding from_clause collect_tables
  from_clause-time c q tf = refl
