-- ===== src/Chat/History/Pages.antt =====
-- The rows of a conversation behind a cursor, and where a page ends.
use wire_server.Prelude.{
  ℕ, zero, suc, ◌<◌, true, false, some, List, [], ◌∷◌, ◌++◌, ◌==◌, ◌≡◌, refl, ap, length, take,
  drop, last?, ltb, nat_eq, All, arith,
}
use wire_server.Text.{trim_space}
use wire_server.Storage.Statements.{select_rows}
use wire_server.Chat.Backend.{Message, find_message}
use wire_server.Chat.History.{before_row}

-- No two rows of one time.
abbrev pub Descending : List Message → Type 0
Descending [] = Unit
Descending (m ∷ ms) = All (λ q. q.created_at < m.created_at) ms × Descending ms

-- What the database draws as an id: a text that is neither empty nor changed by trimming, and the
-- row's own.
abbrev pub IsKeyed : List Message → Message → Type 0
IsKeyed stored m =
    ((m.id == "") ≡ false) × (trim_space m.id ≡ m.id) × (find_message m.id stored ≡ some m)

ltb-true : (a b : ℕ) → a < b → ltb a b ≡ true
ltb-true a b h = ground arith

ltb-false : (a b : ℕ) → b < a → ltb a b ≡ false
ltb-false a b h = ground arith

ltb_irrefl : (a : ℕ) → ltb a a ≡ false
ltb_irrefl a = ground arith

All-middle :
    {t : ℕ} (m : Message) (before after : List Message)
    → All (λ q. q.created_at < t) (before ++ m ∷ after)
    → m.created_at < t
All-middle m [] after h = h.0
All-middle m (q ∷ before) after h = All-middle m before after h.1

select_older :
    (m : Message) (ms : List Message)
    → All (λ q. q.created_at < m.created_at) ms
    → select_rows (before_row (some m)) ms ≡ ms
unfolding select_rows
select_older m [] h = refl
select_older m (q ∷ qs) (older, h) =
    rw (ltb-true q.created_at m.created_at older) (ap (◌∷◌ q) (select_older m qs h))

pub select_rest :
    (m : Message) (before after : List Message)
    → Descending (before ++ m ∷ after)
    → select_rows (before_row (some m)) (before ++ m ∷ after) ≡ after
unfolding select_rows
select_rest m [] after (older, d) = rw (ltb_irrefl m.created_at) (select_older m after older)
select_rest m (q ∷ before) after (older, d) =
    rw (ltb-false q.created_at m.created_at (All-middle m before after older))
      (select_rest m before after d)

-- A page that is full ends at a row behind which the rest begins.
pub record PageEnd (limit : ℕ) (rows : List Message) : Type 0 where
  pub before : List Message
  pub end : Message
  pub is_last : last? (take limit rows) ≡ some end
  pub split : rows ≡ before ++ end ∷ drop limit rows

pub full_page :
    (limit : ℕ) (rows : List Message)
    → length (take (suc limit) rows) ≡ suc limit
    → PageEnd (suc limit) rows
full_page limit [] h = absurd (omega arith)
full_page zero (m ∷ ms) h = record { before = []; end = m; is_last = refl; split = refl }
full_page (suc limit) (m ∷ []) h = absurd (omega arith)
full_page (suc limit) (m ∷ q ∷ ms) h =
    let rest = full_page limit (q ∷ ms) (omega arith) in
    record {
      before = m ∷ rest.before;
      end = rest.end;
      is_last = rest.is_last;
      split = ap (◌∷◌ m) rest.split;
    }

pub short_page :
    (limit : ℕ) (rows : List Message)
    → nat_eq (length (take limit rows)) limit ≡ false
    → take limit rows ≡ rows
short_page zero rows h = absurd (ground arith)
short_page (suc limit) [] h = refl
short_page (suc limit) (m ∷ ms) h = ap (◌∷◌ m) (short_page limit ms (ground arith))
