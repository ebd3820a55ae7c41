-- ===== src/Gateway/Hub/Sends.antt =====
-- Whom `deliver` reaches.
use wire_server.Prelude.{
  ℕ, ◌+◌, String, true, List, [], ◌∷◌, ◌++◌, ◌==◌, ◌≡◌, refl, nat_eq, arith, inl, inr, Bool-cases,
  some, none, Option, if◌then◌else◌, ap, ap₂, sym, ◌∙◌,
}
use wire_server.Chat.Fanout.Runs.{times}
use wire_server.Gateway.Hub.{Connection, Hub, send_each, send_to_phone, send_to_targets, deliver}
use wire_server.Gateway.Hub.Table.{is_none, find_fd, OneEach}

-- The frames on a socket.
abbrev pub frames_on : ℕ → List (ℕ × String) → ℕ
frames_on fd [] = 0
frames_on fd ((f, payload) ∷ rest) = (if nat_eq f fd then 1 else 0) + frames_on fd rest

frames_on-append :
    (fd : ℕ) (xs ys : List (ℕ × String))
    → frames_on fd (xs ++ ys) ≡ frames_on fd xs + frames_on fd ys
frames_on-append fd [] ys = omega arith
frames_on-append fd ((f, payload) ∷ xs) ys = omega (arith, frames_on-append fd xs ys)

-- What a socket gets for one target: nothing without an entry, else one frame for its phone.
abbrev share : String → Option Connection → ℕ
share target none = 0
share target (some c) = if c.phone == target then 1 else 0

-- What a socket gets for a broadcast.
abbrev presence : Option Connection → ℕ
presence none = 0
presence (some c) = 1

-- What `deliver` owes a connection.
abbrev pub frames_due : Connection → List String → ℕ
frames_due c [] = 1
frames_due c (t ∷ ts) = times c.phone (t ∷ ts)

same_fd : (fd g : ℕ) → nat_eq g fd ≡ true → g ≡ fd
same_fd fd g hit = ground arith

absent_is : (o : Option Connection) → is_none o ≡ true → o ≡ none
absent_is none h = refl
absent_is (some c) h = absurd (ground arith)

none-find_fd :
    (fd : ℕ) (c : Connection) (cs : List Connection)
    → nat_eq c.fd fd ≡ true
    → OneEach (c ∷ cs)
    → find_fd fd cs ≡ none
none-find_fd fd c cs hit d =
    sym (ap (λ f. find_fd f cs) (same_fd fd c.fd hit)) ∙ absent_is (find_fd c.fd cs) d.0

frames_on-send_to_phone :
    (fd : ℕ) (payload target : String) (cs : List Connection)
    → OneEach cs
    → frames_on fd (send_to_phone payload target cs) ≡ share target (find_fd fd cs)
frames_on-send_to_phone fd payload target [] d = refl
frames_on-send_to_phone fd payload target (c ∷ cs) d =
    let rest = frames_on-send_to_phone fd payload target cs d.1 in
    elim (Bool-cases (nat_eq c.fd fd)) [
      | inl hit ↦ elim (Bool-cases (c.phone == target)) [
        | inl named ↦ rw (hit, named, hit, rest, none-find_fd fd c cs hit d) refl
        | inr other ↦ rw (hit, other, rest, none-find_fd fd c cs hit d) refl
      ]
      | inr miss ↦ elim (Bool-cases (c.phone == target)) [
        | inl named ↦ rw (miss, named, miss) (omega (arith, rest))
        | inr other ↦ rw (miss, other) rest
      ]
    ]

frames_on-send_each :
    (fd : ℕ) (payload : String) (cs : List Connection)
    → OneEach cs
    → frames_on fd (send_each payload cs) ≡ presence (find_fd fd cs)
frames_on-send_each fd payload [] d = refl
frames_on-send_each fd payload (c ∷ cs) d =
    let rest = frames_on-send_each fd payload cs d.1 in
    elim (Bool-cases (nat_eq c.fd fd)) [
      | inl hit ↦ rw (hit, rest, none-find_fd fd c cs hit d) refl
      | inr miss ↦ rw miss (omega (arith, rest))
    ]

frames_on-send_to_targets :
    (c : Connection) (payload : String) (targets : List String) (cs : List Connection)
    → OneEach cs
    → find_fd c.fd cs ≡ some c
    → frames_on c.fd (send_to_targets payload targets cs) ≡ times c.phone targets
frames_on-send_to_targets c payload [] cs d found = refl
frames_on-send_to_targets c payload (t ∷ ts) cs d found =
    frames_on-append c.fd (send_to_phone payload t cs) (send_to_targets payload ts cs)
    ∙ ap₂ (λ a b. a + b) (frames_on-send_to_phone c.fd payload t cs d ∙ ap (share t) found)
        (frames_on-send_to_targets c payload ts cs d found)

-- `deliver` sends a connection of the table one frame for each time the targets name its phone, or
-- one frame where there are no targets.
pub deliver_lem :
    (c : Connection) (payload : String) (targets : List String) (h : Hub)
    → OneEach h.conns
    → find_fd c.fd h.conns ≡ some c
    → frames_on c.fd (deliver payload targets h).sends
      ≡ frames_on c.fd h.sends + frames_due c targets
unfolding deliver
deliver_lem c payload [] h d found =
    frames_on-append c.fd h.sends (send_each payload h.conns)
    ∙ ap (λ n. frames_on c.fd h.sends + n)
        (frames_on-send_each c.fd payload h.conns d ∙ ap presence found)
deliver_lem c payload (t ∷ ts) h d found =
    frames_on-append c.fd h.sends (send_to_targets payload (t ∷ ts) h.conns)
    ∙ ap (λ n. frames_on c.fd h.sends + n)
        (frames_on-send_to_targets c payload (t ∷ ts) h.conns d found)
