-- ===== src/Gateway/Lookup/Answers.antt =====
-- What a lookup answers for each phone.
use wire_server.Prelude.{
  String, Bool, true, false, not, ◌&&◌, ◌||◌, Option, none, some, List, [], ◌∷◌, ◌==◌, ◌≡◌, refl,
  ap, ap₂, ◌∙◌, elem, eq_iff, arith, inl, inr, Bool-cases, text_cases, if◌then◌else◌,
}
use wire_server.Storage.Rows.{User}
use wire_server.Storage.Pool.{World, query}
use wire_server.Gateway.Http.{Body, lookup_result, write_json}
use wire_server.Gateway.Lookup.{
  phone_in, find_users_by_phones, valid_phones, phone_set, delete_all, lookup_users,
}

abbrev same_phone : String → Option String → Bool
same_phone p none = false
same_phone p (some q) = p == q

-- Whether a user has the phone.
abbrev pub has_user : String → List User → Bool
has_user p [] = false
has_user p (u ∷ us) = same_phone p u.phone || has_user p us

elem-phone_set : (s : String) (ps : List String) → elem s (phone_set ps) ≡ elem s ps
elem-phone_set s [] = refl
elem-phone_set s (p ∷ ps) = elim (Bool-cases (elem p (phone_set ps))) [
  | inl seen ↦ rw seen (ground (arith, elem-phone_set s ps, elem-phone_set p ps, eq_iff s p, seen))
  | inr new ↦ rw (new, elem-phone_set s ps) refl
]

both_gone : (a b gone : Bool) → gone ≡ true → (a && not gone) ≡ (b && not gone)
both_gone a b gone h = ground arith

stays : (gone : Bool) → gone ≡ false → true ≡ not gone
stays gone h = ground arith

elem-delete_all :
    (s : String) (registered ps : List String)
    → elem s (delete_all registered ps) ≡ (elem s ps && not (elem s registered))
elem-delete_all s registered [] = refl
elem-delete_all s registered (p ∷ ps) = elim (text_cases s p) [
  | inl same ↦
      let e = ap (λ x. elem x registered) same in
      elim (Bool-cases (elem p registered)) [
        | inl gone ↦ rw gone (
            elem-delete_all s registered ps
            ∙ both_gone (elem s ps) ((s == p) || elem s ps) (elem s registered) (e ∙ gone))
        | inr kept ↦ rw (kept, (eq_iff s p).1 same) (stays (elem s registered) (e ∙ kept))
      ]
  | inr (_, other) ↦ elim (Bool-cases (elem p registered)) [
    | inl gone ↦ rw (gone, other) (elem-delete_all s registered ps)
    | inr kept ↦ rw (kept, other) (elem-delete_all s registered ps)
  ]
]

and_none : (b : Bool) → false ≡ (b && false)
and_none true = refl
and_none false = refl

found_user :
    (same asked known : Bool)
    → (same ≡ true → asked ≡ true)
    → (same || (asked && known)) ≡ (asked && (same || known))
found_user true true known h = refl
found_user true false known h = absurd (ground (arith, h refl))
found_user false asked known h = refl

skipped_user :
    (same asked known : Bool)
    → (same ≡ true → asked ≡ false)
    → (asked && known) ≡ (asked && (same || known))
skipped_user true true known h = absurd (ground (arith, h refl))
skipped_user true false known h = refl
skipped_user false asked known h = refl

one_user :
    (s : String) (phones : List String) (o : Option String) (rest : List (Option String))
    (known : Bool)
    → elem s (valid_phones rest) ≡ (elem s phones && known)
    → elem s (valid_phones (if phone_in phones o then o ∷ rest else rest))
      ≡ (elem s phones && (same_phone s o || known))
one_user s phones none rest known h = h
one_user s phones (some q) rest known h = elim (Bool-cases (elem q phones)) [
  | inl asked ↦
      rw (asked, h)
        (found_user (s == q) (elem s phones) known
          (λ e. ap (λ x. elem x phones) ((eq_iff s q).0 e) ∙ asked))
  | inr other ↦
      rw (other, h)
        (skipped_user (s == q) (elem s phones) known
          (λ e. ap (λ x. elem x phones) ((eq_iff s q).0 e) ∙ other))
]

elem-find_users_by_phones :
    (s : String) (phones : List String) (us : List User)
    → elem s (valid_phones (find_users_by_phones phones us)) ≡ (elem s phones && has_user s us)
unfolding find_users_by_phones
elem-find_users_by_phones s phones [] = and_none (elem s phones)
elem-find_users_by_phones s phones (u ∷ us) =
    one_user s phones u.phone (find_users_by_phones phones us) (has_user s us)
      (elem-find_users_by_phones s phones us)

-- The two lists of a reply.
abbrev pub registered_in : Body → List String
registered_in (lookup_result registered not_found) = registered
registered_in other = []

abbrev pub not_found_in : Body → List String
not_found_in (lookup_result registered not_found) = not_found
not_found_in other = []

missing : (asked known : Bool) → (asked && not (asked && known)) ≡ (asked && not known)
missing true known = refl
missing false known = refl

-- Where the database answers, `lookupUsers` names a phone as registered if and only if the request
-- asks for it and a user has it, and as not found if and only if the request asks for it and no user
-- has it.
pub lookup_users_lem :
    (phones : List String) (w : World) (s : String)
    → w.fails w.calls ≡ false
    → (elem s (registered_in (lookup_users (some phones) w).0.body)
        ≡ (elem s phones && has_user s w.tables.users))
      × (elem s (not_found_in (lookup_users (some phones) w).0.body)
          ≡ (elem s phones && not (has_user s w.tables.users)))
unfolding lookup_users query write_json
lookup_users_lem [] w s fine = (refl, refl)
lookup_users_lem (p ∷ ps) w s fine =
    let users = find_users_by_phones (p ∷ ps) w.tables.users in
    let known = elem-find_users_by_phones s (p ∷ ps) w.tables.users in
    rw (lookup_users, query, fine)
      (
        known,
        elem-delete_all s (valid_phones users) (phone_set (p ∷ ps))
            ∙ ap₂ (λ a b. a && not b) (elem-phone_set s (p ∷ ps)) known
            ∙ missing (elem s (p ∷ ps)) (has_user s w.tables.users),
      )
