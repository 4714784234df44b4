-- ===== src/Server.antt =====
-- The handlers of cmd/cmgrd/main.go: how the path of a request names a challenge, a build, an instance or
-- a schema, which call of the manager a method stands for, and the status of the answer.
pub mod Routes
pub mod Artifacts
mod Examples
use cmgr.Common.{
  ℕ, ◌≡◌, Bool, true, false, not, Option, none, some, List, [], ◌∷◌, ◌++◌, ◌==◌, if◌then◌else◌,
  length, Text, codes, text_eq, is_empty, split_byte, ℤ, parse_int, Result, ok, err,
}
use cmgr.Validation.{ApiError, plain, error_status, Schema}

pub data Method : Type 0 where
  get_method post_method delete_method other_method : Method

-- What an answer carries: nothing, a value as JSON, the content of a file, or the text of an error.
pub data Body : Type 0 where
  no_body : Body
  value : Text → Body
  content : Text → Body
  message : ApiError → Body

pub record Response : Type 0 where
  pub status : ℕ
  pub body : Body

abbrev pub status_only : ℕ → Response
status_only n = record { status = n; body = no_body }

-- The calls of the manager that the handlers make, on its state; values are given as JSON.
pub record Manager (S : Type 0) : Type 0 where
  pub challenge : Text → S → Result ApiError Text
  pub build : Text → List ℤ → Text → S → S × Result ApiError Text
  pub build_metadata : ℤ → S → Result ApiError Text
  pub start : ℤ → S → S × Result ApiError ℤ
  pub destroy : ℤ → S → S × Result ApiError (Unit {0})
  pub instance_metadata : ℤ → S → Result ApiError Text
  pub check_instance : ℤ → S → Result ApiError (Unit {0})
  pub stop : ℤ → S → S × Result ApiError (Unit {0})
  pub schema_state : Text → S → Result ApiError Text
  pub update_schema : Schema → S → S × Result ApiError (Unit {0})
  pub delete_schema : Text → S → S × Result ApiError (Unit {0})
  pub schemas : S → Result ApiError Text
  pub create_schema : Schema → S → S × Result ApiError (Unit {0})

abbrev slashed_onto : Text → Text → Text
slashed_onto part rest = part ++ 47 ∷ rest

-- The loop of challengeHandler over the parts of the path, from the last one.
pub collect_challenge : Text → List Text → Option Text
collect_challenge found [] = none
collect_challenge found (part ∷ before) =
    let rest = collect_challenge (slashed_onto part found) before in
    if text_eq part (codes "challenges") then some found else rest

abbrev pub reverse_onto : List Text → List Text → List Text
reverse_onto [] ys = ys
reverse_onto (x ∷ xs) ys = reverse_onto xs (x ∷ ys)

-- Without its last byte.
abbrev pub without_last : Text → Text
without_last [] = []
without_last (c ∷ s) = let rest = without_last s in if is_empty s then [] else c ∷ rest

abbrev pub trimmed : Option Text → Option Text
trimmed none = none
trimmed (some found) = if is_empty found then none else some (without_last found)

pub challenge_of_path : Text → Option Text
challenge_of_path path = trimmed (collect_challenge [] (reverse_onto (split_byte 47 path) []))

abbrev pub last_two : List Text → Option (Text × Text)
last_two [] = none
last_two (x ∷ []) = none
last_two (x ∷ y ∷ []) = some (x, y)
last_two (x ∷ y ∷ z ∷ rest) = last_two (y ∷ z ∷ rest)

-- What follows the collection in the path.
pub element_of_path : Text → Text → Option Text
element_of_path collection path = elim (last_two (split_byte 47 path)) [
  | none ↦ none
  | some p ↦ if text_eq (p.0) collection then some (p.1) else none
]

abbrev pub failed : ApiError → Response
failed e = record { status = error_status e 500; body = message e }

abbrev pub answer : ℕ → Result ApiError Text → Response
answer code (ok v) = record { status = code; body = value v }
answer code (err e) = failed e

abbrev pub answer_unit : ℕ → Result ApiError (Unit {0}) → Response
answer_unit code (ok u) = status_only code
answer_unit code (err e) = failed e

abbrev pub bad_request : ApiError → Response
bad_request e = record { status = 400; body = message e }

pub record BuildRequest : Type 0 where
  pub flag_format : Text
  pub seeds : List ℤ

-- A request whose body does not decode has an error in place of it.
module _ {S : Type 0} (m : Manager S) where
  open m use {
    challenge, build, build_metadata, start, destroy, instance_metadata, check_instance, stop,
    schema_state, update_schema, delete_schema, schemas, create_schema,
  }

  abbrev post_build : Text → Result ApiError BuildRequest → S → S × Response
  post_build id (err e) s = (s, bad_request e)
  post_build id (ok r) s =
      let format = if is_empty r.flag_format then codes "flag{%s}" else r.flag_format in
      let (s', built) = build id r.seeds format s in (s', answer 200 built)

  pub challenge_handler : Method → Text → Result ApiError BuildRequest → S → S × Response
  challenge_handler method path body s = elim (challenge_of_path path) [
    | none ↦ (s, status_only 404)
    | some id ↦ elim method [
      | get_method ↦ (s, answer 200 (challenge id s))
      | post_method ↦ post_build id body s
      | _ ↦ (s, status_only 405)
    ]
  ]

  abbrev started : S × Result ApiError ℤ → S × Response
  started (s, ok i) = (s, answer 201 (instance_metadata i s))
  started (s, err e) = (s, failed e)

  abbrev on_number : Option Text → (ℤ → S × Response) → S → S × Response
  on_number none next s = (s, status_only 404)
  on_number (some t) next s = elim (parse_int t) [ none ↦ (s, bad_request plain) | some n ↦ next n ]

  -- The handler of the artifacts, which answers the paths of four parts, is an argument.
  pub build_handler : (Method → Text → S → Response) → Method → Text → S → S × Response
  build_handler artifacts method path s =
      if length (split_byte 47 path) == 4
      then (s, artifacts method path s)
      else on_number (element_of_path (codes "builds") path)
          (λ n. elim method [
            | get_method ↦ (s, answer 200 (build_metadata n s))
            | post_method ↦ started (start n s)
            | delete_method ↦ let (s', r) = destroy n s in (s', answer_unit 204 r)
            | other_method ↦ (s, status_only 405)
          ])
          s

  pub instance_handler : Method → Text → S → S × Response
  instance_handler method path s =
      on_number (element_of_path (codes "instances") path)
        (λ n. elim method [
          | get_method ↦ (s, answer 200 (instance_metadata n s))
          | post_method ↦ (s, answer_unit 204 (check_instance n s))
          | delete_method ↦ let (s', r) = stop n s in (s', answer_unit 204 r)
          | other_method ↦ (s, status_only 405)
        ])
        s

  abbrev post_schema : Text → Result ApiError Schema → S → S × Response
  post_schema name (err e) s = (s, bad_request e)
  post_schema name (ok given) s =
      let (s', r) = update_schema given s in
      if not (text_eq given.name name) then (s, bad_request plain) else (s', answer_unit 204 r)

  pub existing_schema_handler : Method → Text → Result ApiError Schema → S → S × Response
  existing_schema_handler method path body s = elim (element_of_path (codes "schemas") path) [
    | none ↦ (s, status_only 404)
    | some name ↦ elim method [
      | get_method ↦ (s, answer 200 (schema_state name s))
      | post_method ↦ post_schema name body s
      | delete_method ↦ let (s', r) = delete_schema name s in (s', answer_unit 204 r)
      | other_method ↦ (s, status_only 405)
    ]
  ]

  abbrev post_new_schema : Result ApiError Schema → S → S × Response
  post_new_schema (err e) s = (s, bad_request e)
  post_new_schema (ok given) s = let (s', r) = create_schema given s in (s', answer_unit 201 r)

  pub schema_handler : Method → Result ApiError Schema → S → S × Response
  schema_handler method body s = elim method [
    | get_method ↦ (s, answer 200 (schemas s))
    | post_method ↦ post_new_schema body s
    | _ ↦ (s, status_only 405)
  ]
