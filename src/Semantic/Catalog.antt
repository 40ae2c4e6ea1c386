-- ===== src/Semantic/Catalog.antt =====
-- semantic/catalog.py: fields, aliases and joins that the compiler may use, and the built-in catalog,
-- which `catalog_loader` replaces at the start of the service.
use future_bi.Base.{String, List, [], ◌∷◌}
use future_bi.Base.Dict.{Dict}

-- `dtype`; the code keeps these as texts
pub data Dtype : Type 0 where
  str int float bool timestamp : Dtype

pub record FieldMeta : Type 0 where
  pub table : String
  pub column : String
  pub dtype : Dtype

pub data JoinType : Type 0 where
  inner left : JoinType

pub record JoinRule : Type 0 where
  pub join_type : JoinType
  pub on : List (String × String)

-- the module's globals, which the loader writes
pub record Catalog : Type 0 where
  pub columns : Dict FieldMeta
  pub aliases : Dict String
  pub fact_table : String
  pub join_rules : Dict JoinRule
  pub fact_join_rules : Dict JoinRule

abbrev pub field_meta : String → String → Dtype → FieldMeta
field_meta table column dtype = record { table = table; column = column; dtype = dtype }

abbrev join_rule : JoinType → String → JoinRule
join_rule join_type column = record { join_type = join_type; on = (column, column) ∷ [] }

abbrev pub builtin_columns : Dict FieldMeta
builtin_columns =
    ("order_id", field_meta "fact_orders" "order_id" Dtype.int)
    ∷ ("user_id", field_meta "fact_orders" "user_id" Dtype.int)
    ∷ ("product_id", field_meta "fact_orders" "product_id" Dtype.int)
    ∷ ("order_amount", field_meta "fact_orders" "order_amount" Dtype.float)
    ∷ ("discount_amount", field_meta "fact_orders" "discount_amount" Dtype.float)
    ∷ ("pay_status", field_meta "fact_orders" "pay_status" Dtype.str)
    ∷ ("order_time", field_meta "fact_orders" "order_time" Dtype.timestamp)
    ∷ ("shop_id", field_meta "fact_orders" "shop_id" Dtype.int)
    ∷ ("refund_id", field_meta "fact_refunds" "refund_id" Dtype.int)
    ∷ ("refund_amount", field_meta "fact_refunds" "refund_amount" Dtype.float)
    ∷ ("refund_time", field_meta "fact_refunds" "refund_time" Dtype.timestamp)
    ∷ ("refund_status", field_meta "fact_refunds" "refund_status" Dtype.str)
    ∷ ("province", field_meta "dim_user" "province" Dtype.str)
    ∷ ("gender", field_meta "dim_user" "gender" Dtype.str)
    ∷ ("register_time", field_meta "dim_user" "register_time" Dtype.timestamp)
    ∷ ("category", field_meta "dim_product" "category" Dtype.str)
    ∷ ("brand", field_meta "dim_product" "brand" Dtype.str)
    ∷ ("unit_price", field_meta "dim_product" "unit_price" Dtype.float)
    ∷ ("product_name", field_meta "dim_product" "product_name" Dtype.str)
    ∷ ("shop_name", field_meta "dim_shop" "shop_name" Dtype.str)
    ∷ []

abbrev pub builtin_catalog : Catalog
builtin_catalog = record {
  columns = builtin_columns;
  aliases =
      ("fact_orders", "f")
      ∷ ("fact_refunds", "r")
      ∷ ("dim_user", "u")
      ∷ ("dim_product", "p")
      ∷ ("dim_shop", "s")
      ∷ [];
  fact_table = "fact_orders";
  join_rules =
      ("dim_user", join_rule JoinType.inner "user_id")
      ∷ ("dim_product", join_rule JoinType.inner "product_id")
      ∷ ("dim_shop", join_rule JoinType.inner "shop_id")
      ∷ [];
  fact_join_rules = ("fact_refunds", join_rule JoinType.left "order_id") ∷ [];
}
