-- ===== src/Validation/Schemas/Laws.antt =====
-- What the schemas accept, and how they agree with one another and with `validationUtils`.
use microsvc.Prelude.{
  ◌≤◌, String, Bool, true, false, not, ◌&&◌, Option, none, some, List, Json, num, str, obj, end,
  field, Number, dec, get, truthy?, eq_iff, ◌≡◌, refl, sym, ◌∙◌, arith,
}
use mathlib.Core.Path.{subst}
use microsvc.Prelude.Lists.{length}
use microsvc.Forms.{below}
use microsvc.Pages.{is_text}
use microsvc.Validation.{utf16, is_valid_amount}
use microsvc.Validation.Schemas.{
  Schema, Shape, text, number, object, refined, entry, TextRule, matches, word_pattern, same_text,
  login_schema, register_schema, create_transaction_schema, change_password_schema, NumberRule,
}
use microsvc.Validation.Schemas.Reader.{Zod, ZodLaws, rules_ok, number_ok}

is_valid_amount_of :
    (amount : Number)
    → below amount (dec false 1 2) ≡ false
    → below (dec false 100000 0) amount ≡ false
    → is_valid_amount (some amount) none none ≡ true
unfolding is_valid_amount
is_valid_amount_of (dec true digits places) low high = absurd (ground arith)
is_valid_amount_of (dec false digits places) low high = ground arith

module _ (z : Zod) (laws : ZodLaws z) where
  object_field :
      (key : String) (s : Schema) (rest : Shape) (v : Json)
      → z.accepts (object (entry key s rest)) (some v) ≡ true
      → (z.accepts s (get key v) ≡ true) × (z.accepts (object rest) (some v) ≡ true)
  object_field key s rest v h = ground (arith, laws.accepts-entry key s rest v)

  object_of :
      (key : String) (s : Schema) (rest : Shape) (v : Json)
      → z.accepts s (get key v) ≡ true
      → z.accepts (object rest) (some v) ≡ true
      → z.accepts (object (entry key s rest)) (some v) ≡ true
  object_of key s rest v h g = ground (arith, laws.accepts-entry key s rest v)

  text_of :
      (rules : List TextRule) (s : String)
      → rules_ok z.is_email rules s ≡ true
      → z.accepts (text rules) (some (str s)) ≡ true
  text_of rules s h = laws.accepts-text rules (some (str s)) ∙ h

  -- What a registration that is accepted holds.
  pub record IsRegistration (data' : Json) : Type 0 where
    pub username : String
    pub address : String
    pub password : String
    pub is_username : get "username" data' ≡ some (str username)
    pub is_address : get "email" data' ≡ some (str address)
    pub is_password : get "password" data' ≡ some (str password)
    pub repeated : get "confirmPassword" data' ≡ some (str password)
    pub username_length : (3 ≤ length (utf16 username)) × (length (utf16 username) ≤ 50)
    pub username_units : matches word_pattern username ≡ true
    pub address_ok : z.is_email address ≡ true
    pub address_length : (1 ≤ length (utf16 address)) × (length (utf16 address) ≤ 255)
    pub password_length : (8 ≤ length (utf16 password)) × (length (utf16 password) ≤ 128)

  text_inv :
      (rules : List TextRule) (v : Option Json)
      → z.accepts (text rules) v ≡ true
      → (s : String) × (v ≡ some (str s)) × (rules_ok z.is_email rules s ≡ true)
  text_inv rules (some (str s)) h = (s, refl, sym (laws.accepts-text rules (some (str s))) ∙ h)
  text_inv rules none h = absurd (ground (arith, laws.accepts-text rules none))
  text_inv rules (some v) h = absurd (ground (arith, laws.accepts-text rules (some v)))

  number_inv :
      (rules : List NumberRule) (v : Option Json)
      → z.accepts (number rules) v ≡ true
      → (n : Number) × (v ≡ some (num n)) × (number_ok rules n ≡ true)
  number_inv rules (some (num n)) h = (n, refl, sym (laws.accepts-number rules (some (num n))) ∙ h)
  number_inv rules none h = absurd (ground (arith, laws.accepts-number rules none))
  number_inv rules (some v) h = absurd (ground (arith, laws.accepts-number rules (some v)))

  refined_inv :
      (s : Schema) (test : Json → Bool) (message path : String) (v : Json)
      → z.accepts (refined s test message path) (some v) ≡ true
      → (z.accepts s (some v) ≡ true) × (test v ≡ true)
  refined_inv s test message path v h = ground (arith, laws.accepts-refined s test message path v)

  same_text-eq :
      (s : String) (v : Option Json) → same_text (some (str s)) v ≡ true → v ≡ some (str s)
  same_text-eq s (some (str t)) h = ground (arith, eq_iff t s)
  same_text-eq s none h = absurd (ground arith)
  same_text-eq s (some _) h = absurd (ground arith)

  -- What the schema of registration accepts has a username of three to fifty units that are letters,
  -- digits and underscores, an address that is accepted as one and has at most 255 units, and a
  -- password of eight to 128 units that is repeated.
  pub register_schema_inv :
      (data' : Json) → z.accepts register_schema (some data') ≡ true → IsRegistration data'
  unfolding register_schema
  register_schema_inv data' h =
      let (whole, same) = refined_inv _ _ _ _ data' h in
      let (u, rest) = object_field "username" _ _ data' whole in
      let (a, rest') = object_field "email" _ _ data' rest in
      let (p, rest'') = object_field "password" _ _ data' rest' in
      let (username, is_u, us) = text_inv _ (get "username" data') u in
      let (address, is_a, as') = text_inv _ (get "email" data') a in
      let (password, is_p, ps) = text_inv _ (get "password" data') p in
      record {
        username = username;
        address = address;
        password = password;
        is_username = is_u;
        is_address = is_a;
        is_password = is_p;
        repeated =
            same_text-eq password (get "confirmPassword" data')
              (subst (λ v. same_text v (get "confirmPassword" data') ≡ true) is_p same);
        username_length = (ground arith, ground arith);
        username_units = ground arith;
        address_ok = ground arith;
        address_length = (ground arith, ground arith);
        password_length = (ground arith, ground arith);
      }

  -- The entries of a login with a name and a password.
  abbrev pub credentials : (name password : String) → Json
  credentials name password =
      obj (field "usernameOrEmail" (str name) (field "password" (str password) end))

  login_schema_of :
      (name password : String)
      → 1 ≤ length (utf16 name)
      → length (utf16 name) ≤ 255
      → 8 ≤ length (utf16 password)
      → z.accepts login_schema (some (credentials name password)) ≡ true
  unfolding login_schema get
  login_schema_of name password low high long =
      object_of _ _ _ (credentials name password) (text_of _ name (ground arith)) (
        object_of _ _ _ (credentials name password) (text_of _ password (ground arith))
          (laws.accepts-no_more (some (credentials name password))))

  -- Whoever registers can log in: with the username, and with the address, of a registration that is
  -- accepted, and its password, the schema of login accepts the entries.
  pub registered_can_login :
      (data' : Json)
      → z.accepts register_schema (some data') ≡ true
      → (username address password : String) × (get "username" data' ≡ some (str username))
        × (get "email" data' ≡ some (str address))
        × (get "password" data' ≡ some (str password))
        × (z.accepts login_schema (some (credentials username password)) ≡ true)
        × (z.accepts login_schema (some (credentials address password)) ≡ true)
  registered_can_login data' h =
      let r = register_schema_inv data' h in
      (
        r.username,
        r.address,
        r.password,
        r.is_username,
        r.is_address,
        r.is_password,
        login_schema_of r.username r.password (omega arith) (omega arith) r.password_length.0,
        login_schema_of r.address r.password r.address_length.0 r.address_length.1
            r.password_length.0,
      )

  -- A new password that the schema of its change accepts is repeated, and the schema of login accepts
  -- it, with any name of one to 255 units.
  pub changed_can_login :
      (data' : Json) (name : String)
      → z.accepts change_password_schema (some data') ≡ true
      → 1 ≤ length (utf16 name)
      → length (utf16 name) ≤ 255
      → (password : String) × (get "newPassword" data' ≡ some (str password))
        × (get "confirmPassword" data' ≡ some (str password))
        × (z.accepts login_schema (some (credentials name password)) ≡ true)
  unfolding change_password_schema
  changed_can_login data' name h low high =
      let (whole, same) = refined_inv _ _ _ _ data' h in
      let (c, rest) = object_field "currentPassword" _ _ data' whole in
      let (p, rest') = object_field "newPassword" _ _ data' rest in
      let (password, is_p, ps) = text_inv _ (get "newPassword" data') p in
      (
        password,
        is_p,
        same_text-eq password (get "confirmPassword" data')
            (subst (λ v. same_text v (get "confirmPassword" data') ≡ true) is_p same),
        login_schema_of name password low high (ground arith),
      )

  -- The schema of a transaction accepts a transfer only with a destination, and an amount only from
  -- 0.01 to 100,000, which `isValidAmount` accepts too.
  pub create_transaction_schema_inv :
      (data' : Json)
      → z.accepts create_transaction_schema (some data') ≡ true
      → (amount : Number) × (get "amount" data' ≡ some (num amount))
        × (below amount (dec false 1 2) ≡ false)
        × (below (dec false 100000 0) amount ≡ false)
        × (is_valid_amount (some amount) none none ≡ true)
        × ((is_text "TRANSFER" (get "type" data') && not (truthy? (get "toAccountId" data')))
            ≡ false)
  unfolding create_transaction_schema
  create_transaction_schema_inv data' h =
      let (whole, destined) = refined_inv _ _ _ _ data' h in
      let (a, rest) = object_field "accountId" _ _ data' whole in
      let (b, rest') = object_field "toAccountId" _ _ data' rest in
      let (c, others) = object_field "type" _ _ data' rest' in
      let (n, last) = object_field "amount" _ _ data' others in
      let (amount, is_n, ns) = number_inv _ (get "amount" data') n in
      (
        amount,
        is_n,
        ground arith,
        ground arith,
        is_valid_amount_of amount (ground arith) (ground arith),
        ground arith,
      )
