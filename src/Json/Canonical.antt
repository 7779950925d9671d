-- ===== src/Json/Canonical.antt =====
-- src/core/crypto/canonical.ts: `canonicalJson`, over `JSON.stringify` of a text.
use Prim.Native.Nat.{Ordering}
use Prim.Native.Char.{Char, code}
use Prim.Native.String
use Prim.Native.String.{String}
use openkedge.Prelude.Int.{pos, negsuc}
use openkedge.Prelude.{
  ℕ, suc, ◌/◌, ◌%◌, ◌≡◌, refl, Bool, true, false, List, [], ◌∷◌, map, Result, ok, err, ◌>>=◌,
  concat, decimal, eqb, ltb, if◌then◌else◌,
}
use openkedge.Json.{
  Number, int, non_finite, Value, null, exotic, bool, num, str, arr, obj, Items, nil, cons, Fields,
  end, field,
}

-- JavaScript sorts keys by code units; this order is by code points.
abbrev text_le : String → String → Bool
text_le a b = elim (String.compare a b) [ Ordering.gt ↦ false | _ ↦ true ]

insert_key : String × String → List (String × String) → List (String × String)
insert_key e [] = e ∷ []
insert_key e (d ∷ rest) =
    let later = insert_key e rest in if text_le e.0 d.0 then e ∷ d ∷ rest else d ∷ later

-- `Object.keys(value).sort()`, with the rendered values at hand.
sort_keys : List (String × String) → List (String × String)
unfolding insert_key
sort_keys [] = []
sort_keys (e ∷ rest) = insert_key e (sort_keys rest)

join : String → List String → String
join sep [] = ""
join sep (s ∷ []) = s
join sep (s ∷ t ∷ rest) = concat (s ∷ sep ∷ join sep (t ∷ rest) ∷ [])

hex : ℕ → String
hex n =
    if ltb n 10
    then decimal n
    else if eqb n 10
    then "a"
    else if eqb n 11
    then "b"
    else if eqb n 12
    then "c"
    else if eqb n 13
    then "d"
    else if eqb n 14
    then "e"
    else "f"

-- One code point of a quoted text.
quote_char : Char → String
unfolding hex
quote_char c =
    let n = code c in
    if eqb n 34
    then "\\\""
    else if eqb n 92
    then "\\\\"
    else if eqb n 8
    then "\\b"
    else if eqb n 9
    then "\\t"
    else if eqb n 10
    then "\\n"
    else if eqb n 12
    then "\\f"
    else if eqb n 13
    then "\\r"
    else if ltb n 32
    then concat ("\\u00" ∷ hex (n / 16) ∷ hex (n % 16) ∷ [])
    else String.◌∷◌ c String.[]

quote_chars : String → String
unfolding quote_char
quote_chars String.[] = ""
quote_chars (String.◌∷◌ c rest) = String.◌++◌ (quote_char c) (quote_chars rest)

-- `JSON.stringify` of a text.
quote : String → String
unfolding quote_chars
quote s = concat ("\"" ∷ quote_chars s ∷ "\"" ∷ [])

render_number : Number → Result String String
render_number (int (pos n)) = ok (decimal n)
render_number (int (negsuc n)) = ok (concat ("-" ∷ decimal (suc n) ∷ []))
render_number non_finite = err "Expected finite JSON data"

abbrev render_entry : String × String → String
render_entry e = concat (quote e.0 ∷ ":" ∷ e.1 ∷ [])

unfoldable mutual
  unfolding quote sort_keys join render_number decimal

  pub canonical_json : Value → Result String String
  canonical_json null = ok "null"
  canonical_json exotic = err "Expected finite JSON data"
  canonical_json (bool true) = ok "true"
  canonical_json (bool false) = ok "false"
  canonical_json (num n) = render_number n
  canonical_json (str s) = ok (quote s)
  canonical_json (arr xs) =
      render_items xs >>= λ parts. ok (concat ("[" ∷ join "," parts ∷ "]" ∷ []))
  canonical_json (obj fs) = render_fields fs >>= λ parts.
      ok (concat ("{" ∷ join "," (map render_entry (sort_keys parts)) ∷ "}" ∷ []))

  pub render_items : Items → Result String (List String)
  render_items nil = ok []
  render_items (cons v rest) =
      canonical_json v >>= λ part. render_items rest >>= λ parts. ok (part ∷ parts)

  pub render_fields : Fields → Result String (List (String × String))
  render_fields end = ok []
  render_fields (field k v rest) =
      canonical_json v >>= λ part. render_fields rest >>= λ parts. ok ((k, part) ∷ parts)

-- Keys are sorted at every depth, and texts are escaped.
canonical_json_test :
    canonical_json
      (obj (field "b" (arr (cons (num (int (pos 12))) nil)) (field "a" (str "x\"y") end)))
    ≡ ok "{\"a\":\"x\\\"y\",\"b\":[12]}"
unfolding canonical_json
canonical_json_test = refl
