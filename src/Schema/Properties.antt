-- ===== src/Schema/Properties.antt =====
-- `PropertyType`, `Property` and `ObjectSchema`. Column and table keys belong to the storage engine
-- and are left out.
use Prim.Native.Nat.{bit_and}
use realm_object_store.Base.{
  ℕ, ◌+◌, Bool, true, false, not, ◌&&◌, ◌||◌, List, [], ◌∷◌, ◌≡◌, refl, ◌==◌, Option, none, some,
  if◌then◌else◌,
}
use realm_object_store.Schema.Names.{Name, name_eq}

pub data BaseType : Type 0 where
  int bool string binary date float double object linking_objects any object_id decimal : BaseType

-- A property type without its flags, as the byte has it.
abbrev pub base_code : BaseType → ℕ
base_code int = 0
base_code bool = 1
base_code string = 2
base_code binary = 3
base_code date = 4
base_code float = 5
base_code double = 6
base_code object = 7
base_code linking_objects = 8
base_code any = 9
base_code object_id = 10
base_code decimal = 11

-- A byte of `PropertyType`: one of the types with the flags `Nullable` and `Array`.
pub record PropertyType : Type 0 where
  pub base : BaseType
  pub nullable : Bool
  pub array : Bool

unfoldable pub to_underlying : PropertyType → ℕ
to_underlying t = base_code t.base + ((if t.nullable then 64 else 0) + (if t.array then 128 else 0))

-- `operator==` on types compares them without their flags.
abbrev pub same_base : BaseType → BaseType → Bool
same_base a b = base_code a == base_code b

abbrev pub same_type : PropertyType → PropertyType → Bool
same_type a b = same_base a.base b.base

abbrev pub bool_eq : Bool → Bool → Bool
bool_eq true b = b
bool_eq false b = not b

pub record Property : Type 0 where
  pub name : Name
  pub public_name : Name
  pub type : PropertyType
  pub object_type : Name
  pub link_origin_property_name : Name
  pub is_primary : Bool
  pub is_indexed : Bool

abbrev pub requires_index : Property → Bool
requires_index p = p.is_indexed && not p.is_primary

-- `operator==` on properties.
unfoldable pub property_eq : Property → Property → Bool
unfolding to_underlying
property_eq a b =
    (to_underlying a.type == to_underlying b.type)
    && bool_eq a.is_primary b.is_primary
    && bool_eq (requires_index a) (requires_index b)
    && name_eq a.name b.name
    && name_eq a.object_type b.object_type
    && name_eq a.link_origin_property_name b.link_origin_property_name

unfoldable pub type_is_indexable : PropertyType → Bool
type_is_indexable t =
    same_base t.base int
    || same_base t.base bool
    || same_base t.base date
    || same_base t.base string
    || same_base t.base object_id

unfoldable pub type_is_nullable : PropertyType → Bool
type_is_nullable t =
    not (t.array && same_base t.base object) && not (same_base t.base linking_objects)

pub record ObjectSchema : Type 0 where
  pub name : Name
  pub persisted_properties : List Property
  pub computed_properties : List Property
  pub primary_key : Name
  pub is_embedded : Bool

unfoldable pub find_property : Name → List Property → Option Property
find_property n [] = none
find_property n (p ∷ ps) = if name_eq p.name n then some p else find_property n ps

abbrev pub or_property : Option Property → Option Property → Option Property
or_property none o = o
or_property (some p) o = some p

-- `property_for_name`
unfoldable pub property_for_name : ObjectSchema → Name → Option Property
unfolding find_property
property_for_name o n =
    or_property (find_property n o.persisted_properties) (find_property n o.computed_properties)

-- `primary_key_property`
abbrev pub primary_key_property : ObjectSchema → Option Property
primary_key_property o = property_for_name o o.primary_key

unfoldable pub has_property : Property → List Property → Bool
has_property p [] = false
has_property p (q ∷ qs) = property_eq q p || has_property p qs

-- `property_is_computed`
unfoldable pub property_is_computed : ObjectSchema → Property → Bool
unfolding has_property
property_is_computed o p = has_property p o.computed_properties

abbrev typed : BaseType → Bool → Bool → PropertyType
typed b n a = record { base = b; nullable = n; array = a }

-- What the masks of `is_nullable`, `is_array` and `operator==` leave of a byte.
abbrev pub Reads : PropertyType → Type 0
Reads t =
    ((bit_and (to_underlying t) 64 == 64) ≡ t.nullable)
    × ((bit_and (to_underlying t) 128 == 128) ≡ t.array)
    × (bit_and (to_underlying t) 63 ≡ base_code t.base)

to_underlying-Reads : (b : BaseType) (n a : Bool) → Reads (typed b n a)
unfolding to_underlying
to_underlying-Reads int true true = (refl, refl, refl)
to_underlying-Reads int true false = (refl, refl, refl)
to_underlying-Reads int false true = (refl, refl, refl)
to_underlying-Reads int false false = (refl, refl, refl)
to_underlying-Reads _ true true = (refl, refl, refl)
to_underlying-Reads _ true false = (refl, refl, refl)
to_underlying-Reads _ false true = (refl, refl, refl)
to_underlying-Reads _ false false = (refl, refl, refl)

-- The masks read the flags and the type back from the byte of every property type.
pub to_underlying_flags : (t : PropertyType) → Reads t
to_underlying_flags t = to_underlying-Reads t.base t.nullable t.array
