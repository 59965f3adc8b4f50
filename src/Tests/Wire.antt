-- ===== src/Tests/Wire.antt =====
-- A JSON library of the tests: numbers are written in unary, and each item ends with a byte of its
-- kind.
use wg_auth.Base.{
  ℕ, zero, suc, ◌+◌, ◌<◌, ◌≡◌, refl, sym, subst, ap, ◌∙◌, List, [], ◌∷◌, ◌++◌, Option, none, some,
  Bytes, String, codes, str_eq, if◌then◌else◌, arith, length, replicate, ◌==◌, Lacks, length-append,
}
use mathlib.Core.List.{append_assoc, append-nil}
use wg_auth.Client.Api.Wire.{object_of, member_of, WireLaws}
use wg_auth.Client.Main.Token.{to_nul_whole}
use wg_auth.Client.{Member, string, number, Response, Http, HttpRequest, Transfer}
use wg_auth.Libc.{pos}
use wg_auth.Server.{Value, Fields}

-- The number, the text and the name that have been read.
pub record Reading : Type 0 where
  pub num : ℕ
  pub text : Bytes
  pub name : Bytes

abbrev pub reading : ℕ → Bytes → Bytes → Reading
reading num text name = record { num = num; text = text; name = name }

-- A tick, the end of a character, of a name, of a string, and of a number.
unfoldable pub read_byte : Reading → ℕ → Reading × List (Bytes × Member)
read_byte r c =
    if c == 1
    then (record r { num = r.num + 1 }, [])
    else if c == 2
    then (record r { num = 0; text = r.text ++ r.num ∷ [] }, [])
    else if c == 3
    then (reading 0 [] r.text, [])
    else if c == 4
    then (reading 0 [] [], (r.name, string r.text) ∷ [])
    else if c == 5
    then (reading 0 [] [], (r.name, number (pos r.num)) ∷ [])
    else (r, [])

unfoldable pub read_all : Reading → Bytes → List (Bytes × Member)
read_all r [] = []
read_all r (c ∷ s) = let (r', items) = read_byte r c in items ++ read_all r' s

unfoldable pub print_text : Bytes → Bytes
print_text [] = []
print_text (c ∷ s) = replicate c 1 ++ 2 ∷ print_text s

unfoldable pub print_value : Value → Bytes
print_value (Value.string s) = print_text s ++ 4 ∷ []
print_value (Value.number n) = replicate n 1 ++ 5 ∷ []

unfoldable pub print_fields : Fields → Bytes
print_fields [] = 6 ∷ []
print_fields ((name, value) ∷ fields) =
    print_text (codes name) ++ 3 ∷ (print_value value ++ print_fields fields)

read-ticks :
    (n m : ℕ) (text name s : Bytes)
    → read_all (reading m text name) (replicate n 1 ++ s) ≡ read_all (reading (m + n) text name) s
unfolding read_all read_byte
read-ticks zero m text name s = ap (λ k. read_all (reading k text name) s) (omega arith)
read-ticks (suc n) m text name s =
    read-ticks n (m + 1) text name s ∙ ap (λ k. read_all (reading k text name) s) (omega arith)

plus_zero : (c : ℕ) → 0 + c ≡ c
plus_zero c = omega arith

read-text :
    (t text name s : Bytes)
    → read_all (reading 0 text name) (print_text t ++ s) ≡ read_all (reading 0 (text ++ t) name) s
unfolding read_all read_byte print_text
read-text [] text name s = ap (λ u. read_all (reading 0 u name) s) (sym (append-nil text))
read-text (c ∷ t) text name s =
    ap (read_all (reading 0 text name)) (append_assoc (replicate c 1) (2 ∷ print_text t) s)
    ∙ read-ticks c 0 text name (2 ∷ (print_text t ++ s))
    ∙ read-text t (text ++ (0 + c) ∷ []) name s
    ∙ ap (λ k. read_all (reading 0 ((text ++ k ∷ []) ++ t) name) s) (plus_zero c)
    ∙ ap (λ u. read_all (reading 0 u name) s) (append_assoc text (c ∷ []) t)

unfoldable items_of : Fields → List (Bytes × Member)
items_of [] = []
items_of ((name, value) ∷ fields) = (codes name, member_of value) ∷ items_of fields

read-value :
    (value : Value) (name s : Bytes)
    → read_all (reading 0 [] name) (print_value value ++ s)
      ≡ (name, member_of value) ∷ read_all (reading 0 [] []) s
unfolding read_all read_byte print_value
read-value (Value.string t) name s =
    ap (read_all (reading 0 [] name)) (append_assoc (print_text t) (4 ∷ []) s)
    ∙ read-text t [] name (4 ∷ s)
read-value (Value.number n) name s =
    ap (read_all (reading 0 [] name)) (append_assoc (replicate n 1) (5 ∷ []) s)
    ∙ read-ticks n 0 [] name (5 ∷ s)
    ∙ ap (λ k. (name, number (pos k)) ∷ read_all (reading 0 [] []) s) (plus_zero n)

read-fields : (fields : Fields) → read_all (reading 0 [] []) (print_fields fields) ≡ items_of fields
unfolding read_all read_byte print_fields items_of
read-fields [] = refl
read-fields ((name, value) ∷ fields) =
    read-text (codes name) [] [] (3 ∷ (print_value value ++ print_fields fields))
    ∙ read-value value (codes name) (print_fields fields)
    ∙ ap (λ t. (codes name, member_of value) ∷ t) (read-fields fields)

-- The first item with the name.
unfoldable pub lookup : List (Bytes × Member) → Response
lookup [] key = none
lookup ((name, member) ∷ items) key =
    if str_eq name (codes key) then some member else lookup items key

lookup-items_of :
    (fields : Fields) (key : String) → lookup (items_of fields) key ≡ object_of fields key
unfolding lookup items_of object_of
lookup-items_of [] key = refl
lookup-items_of ((name, value) ∷ fields) key = ground (arith, lookup-items_of fields key)

-- No NUL is written.
ticks-Positive : (n : ℕ) (s : Bytes) → Lacks 0 s → Lacks 0 (replicate n 1 ++ s)
ticks-Positive zero s h = h
ticks-Positive (suc n) s h = (omega arith, ticks-Positive n s h)

text-Positive : (t s : Bytes) → Lacks 0 s → Lacks 0 (print_text t ++ s)
unfolding print_text
text-Positive [] s h = h
text-Positive (c ∷ t) s h =
    subst (Lacks 0) (sym (append_assoc (replicate c 1) (2 ∷ print_text t) s))
      (ticks-Positive c _ (omega arith, text-Positive t s h))

value-Positive : (value : Value) (s : Bytes) → Lacks 0 s → Lacks 0 (print_value value ++ s)
unfolding print_value
value-Positive (Value.string t) s h =
    subst (Lacks 0) (sym (append_assoc (print_text t) (4 ∷ []) s))
      (text-Positive t (4 ∷ s) (omega arith, h))
value-Positive (Value.number n) s h =
    subst (Lacks 0) (sym (append_assoc (replicate n 1) (5 ∷ []) s))
      (ticks-Positive n (5 ∷ s) (omega arith, h))

fields-Positive : (fields : Fields) → Lacks 0 (print_fields fields)
unfolding print_fields
fields-Positive [] = (omega arith, tt)
fields-Positive ((name, value) ∷ fields) =
    text-Positive (codes name) _ (omega arith, value-Positive value _ (fields-Positive fields))

print_fields_nonempty : (fields : Fields) → 0 < length (print_fields fields)
unfolding print_fields
print_fields_nonempty [] = omega arith
print_fields_nonempty ((name, value) ∷ fields) = omega (
  arith,
  length-append (print_text (codes name)) (3 ∷ (print_value value ++ print_fields fields)),
)

abbrev pub strings : List (String × Bytes) → Fields
strings [] = []
strings ((name, s) ∷ items) = (name, Value.string s) ∷ strings items

module _ {N : Type 0} (perform : HttpRequest → N → N × Option Transfer) where
  abbrev pub http : Http N
  http = record {
    perform = perform;
    parse_json = λ s. some (lookup (read_all (reading 0 [] []) s));
    print_strings = λ fields. some (print_fields (strings fields));
  }

  pub http-WireLaws : WireLaws http print_fields
  http-WireLaws = record {
    reads = λ fields.
        ap (λ s. some (lookup (read_all (reading 0 [] []) s)))
          (to_nul_whole (print_fields fields) (fields-Positive fields))
        ∙ ap (λ items. some (lookup items)) (read-fields fields)
        ∙ ap some (λ i key. lookup-items_of fields key i);
    nonempty = print_fields_nonempty;
  }
