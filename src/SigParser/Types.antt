-- ===== src/SigParser/Types.antt =====
-- accept_type on the encoding of a type: where it stops, what it pushes, and its flag.
pub mod Arrays
pub mod Structs
use labcomm_core.Common.{
  ℕ, zero, suc, ◌+◌, ◌-◌, ◌*◌, ◌/◌, ◌%◌, ◌^◌, ◌≤◌, ◌<◌, ◌≡◌, ◌≢◌, refl, sym, ap, ◌∙◌, Bool, true,
  false, ◌||◌, Option, none, some, List, [], ◌∷◌, ◌++◌, append_assoc, arith, ◌==◌, if◌then◌else◌,
  length, Cmd, Yields, All,
}
use labcomm_core.Wire.{packed32, string}
use labcomm_core.SigParser.{SigParser, array_decl, struct_decl, type_string, pushed_size}
use labcomm_core.SigParser.Input.{State}

-- Intentions: keys with their values.
abbrev pub Intentions : Type 0
Intentions = List (List ℕ × List ℕ)

-- A type in a signature: a number, of a primitive or a user type, an array with its dimensions (0
-- where one is variable), or a struct.
mutual
  pub data Ty : Type 0 where
    simple : ℕ → Ty
    array : List ℕ → Ty → Ty
    struct : Fields → Ty

  pub data Fields : Type 0 where
    no_fields : Fields
    field : Intentions → Ty → Fields → Fields

abbrev pub numbers : List ℕ → List ℕ
numbers [] = []
numbers (n ∷ ns) = packed32 n ++ numbers ns

abbrev pub strings : Intentions → List ℕ
strings [] = []
strings ((key, value) ∷ more) = string key ++ (string value ++ strings more)

-- Where the value of the last empty key starts, `size` being the end of the input, `rest` what
-- follows the intentions, and how long it is.
abbrev pub name_place : ℕ → List ℕ → Intentions → ℕ → ℕ → ℕ × ℕ
name_place size rest [] npos nlen = (npos, nlen)
name_place size rest ((key, value) ∷ more) npos nlen =
    name_place size rest more
      (if length key == 0 then size - length (string value ++ (strings more ++ rest)) else npos)
      (if length key == 0 then length value else nlen)

abbrev pub fields : Fields → ℕ
fields no_fields = 0
fields (field ks t more) = suc (fields more)

-- The encoding.
abbrev mutual
  pub ty : Ty → List ℕ
  ty (simple n) = packed32 n
  ty (array dims t) = packed32 array_decl ++ (packed32 (length dims) ++ (numbers dims ++ ty t))
  ty (struct fs) = packed32 struct_decl ++ (packed32 (fields fs) ++ ty_fields fs)

  pub ty_fields : Fields → List ℕ
  ty_fields no_fields = []
  ty_fields (field ks t more) = packed32 (length ks) ++ (strings ks ++ (ty t ++ ty_fields more))

-- How many dimensions are variable, and the product of the others, both on top of what is given.
abbrev pub zeros : ℕ → List ℕ → ℕ
zeros n [] = n
zeros n (d ∷ ds) = zeros (if d == 0 then n + 1 else n) ds

abbrev pub product : ℕ → List ℕ → ℕ
product n [] = n
product n (d ∷ ds) = product (if d == 0 then n else n * d % 2 ^ 32) ds

abbrev pub has_zero : List ℕ → Bool
has_zero [] = false
has_zero (d ∷ ds) = (d == 0) || has_zero ds

abbrev pub tag : Ty → ℕ
tag (simple n) = n
tag (array dims t) = array_decl
tag (struct fs) = struct_decl

abbrev pub or_zero : Option ℕ → ℕ
or_zero none = 0
or_zero (some n) = n

abbrev pub is_some : Option ℕ → Bool
is_some none = false
is_some (some n) = true

-- The size of a value as far as it is fixed: 0 stands for a part of variable size.
abbrev mutual
  pub byte_size : Ty → ℕ
  byte_size (simple n) = or_zero (pushed_size n)
  byte_size (array dims t) = if zeros 0 dims == 0 then product 1 dims * byte_size t % 2 ^ 32 else 0
  byte_size (struct fs) = byte_sizes 0 fs

  pub byte_sizes : ℕ → Fields → ℕ
  byte_sizes n no_fields = n
  byte_sizes n (field ks t more) = byte_sizes ((n + byte_size t) % 2 ^ 32) more

abbrev mutual
  pub has_var : Ty → Bool
  has_var (simple n) = n == type_string
  has_var (array dims t) = has_zero dims || has_var t
  has_var (struct fs) = have_var fs

  pub have_var : Fields → Bool
  have_var no_fields = false
  have_var (field ks t more) = has_var t || have_var more

-- The numbers have 32 bits, and a simple type has not the tag of an array or a struct.
abbrev mutual
  pub IsTy : Ty → Type 0
  IsTy (simple n) = (n < 2 ^ 32) × ((n ≢ array_decl) × (n ≢ struct_decl))
  IsTy (array dims t) = (length dims < 2 ^ 32) × (All (λ d. d < 2 ^ 32) dims × IsTy t)
  IsTy (struct fs) = (fields fs < 2 ^ 32) × AreTys fs

  pub AreTys : Fields → Type 0
  AreTys no_fields = Unit {0}
  AreTys (field ks t more) = (length ks < 2 ^ 32) × (IsTy t × AreTys more)

abbrev mutual
  pub depth : Ty → ℕ
  depth (simple n) = 0
  depth (array dims t) = suc (depth t)
  depth (struct fs) = suc (depths fs)

  pub depths : Fields → ℕ
  depths no_fields = 0
  depths (field ks t more) = depth t + depths more

abbrev pub is_known : Ty → Bool
is_known (simple n) = is_some (pushed_size n)
is_known (array dims t) = true
is_known (struct fs) = true

-- `parse`, before the encoding of `t`, stops behind it, has pushed the size and the tag, and sets
-- the flag where a part has a variable size.
abbrev pub Accepts : List ℕ → SigParser → Cmd SigParser Bool → Ty → Type 0
Accepts junk f parse t =
    (bytes st : List ℕ) (var : Bool) (p : SigParser)
    → length st + 3 ≤ f.stacksize
    → State junk f (ty t ++ bytes) st var p
    → Yields (is_known t) (State junk f bytes (tag t ∷ (byte_size t ∷ st)) (var || has_var t))
        (parse p)
