-- ===== src/Users/Registration.antt =====
-- `register_user` of backend/apps/users/services.py and the password rules of schemas.py.
use ai_chat_websocket.Prelude.{
  ℕ, ◌≡◌, Text, codes, Bool, false, ◌&&◌, ◌||◌, Option, none, some, List, [], ◌∷◌, leb, Result, ok,
  err, ◌==◌, nat_eq, text_eq, if◌then◌else◌, Bool-cases, inl, inr, ==_refl,
}
use ai_chat_websocket.Core.Errors.{Error, validation_error}

pub record User : Type 0 where
  pub email : Text
  pub username : Text
  pub password : Text

abbrev pub any_char : (ℕ → Bool) → Text → Bool
any_char p [] = false
any_char p (c ∷ s) = p c || any_char p s

abbrev pub contains_char : Text → ℕ → Bool
contains_char s c = any_char (λ d. c == d) s

abbrev pub special_characters : Text
special_characters = codes "!@#$%^&*(),.?\":{}|<>_-+=[]\\;'`~"

-- `is_decimal` is the class `\d` of the library re, which knows the digits of all scripts.
module _ (is_decimal : ℕ → Bool) where
  -- the message of the first rule that the password breaks
  unfoldable pub validate_password_complexity : Text → Option Text
  validate_password_complexity v =
      if any_char (λ c. leb b'a' c && leb c b'z') v
      then (if any_char (λ c. leb b'A' c && leb c b'Z') v
          then (if any_char is_decimal v
              then (if any_char (contains_char special_characters) v
                  then none
                  else some (codes "Password must contain at least one special character"))
              else some (codes "Password must contain at least one digit"))
          else some (codes "Password must contain at least one uppercase letter"))
      else some (codes "Password must contain at least one lowercase letter")

abbrev pub registration_error : Error
registration_error =
    validation_error
      (codes "Unable to complete registration. Please try a different email or username.")

-- `User.objects.filter(Q(email=email) | Q(username=username)).exists()`
unfoldable pub is_taken : Text → Text → List User → Bool
is_taken email username [] = false
is_taken email username (u ∷ users) =
    (u.email == email || u.username == username) || is_taken email username users

-- `make_password` is the password hasher.
module _ (make_password : Text → Text) where
  unfoldable pub register_user : Text → Text → Text → List User → Result Error User × List User
  unfolding is_taken
  register_user email username password users =
      let user : User = record {
        email = email;
        username = username;
        password = make_password password;
      } in
      if is_taken email username users
      then (err registration_error, users)
      else (ok user, user ∷ users)

  -- No two users share an email or a username.
  abbrev pub AllDifferent : List User → Type 0
  AllDifferent [] = Unit
  AllDifferent (u ∷ users) = (is_taken u.email u.username users ≡ false) × AllDifferent users

  -- Registering keeps that no two users share an email or a username.
  register_user-AllDifferent :
      (email username password : Text) (users : List User)
      → AllDifferent users
      → AllDifferent (register_user email username password users).1
  unfolding register_user
  register_user-AllDifferent email username password users h =
      elim (Bool-cases (is_taken email username users)) [
        | inl taken ↦ rw taken h
        | inr free ↦ rw free (free, h)
      ]

  -- After a registration a second one with the same email or the same username, whatever the rest, is
  -- refused and changes nothing.
  registered_once :
      (email username password other password' : Text) (users : List User)
      → is_taken email username users ≡ false
      → let after = (register_user email username password users).1 in
        (register_user email other password' after ≡ (err registration_error, after))
        × (register_user other username password' after ≡ (err registration_error, after))
  unfolding register_user
  registered_once email username password other password' users free = (
    rw (free, ==_refl email),
    elim (Bool-cases (email == other)) [
      | inl same ↦ rw (free, same)
      | inr different ↦ rw (free, different, ==_refl username)
    ],
  )
