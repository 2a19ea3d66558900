-- ===== src/Common/Pages.antt =====
-- backend/src/common/cursor-pagination.ts: `parsePageLimit` and `dateIdPageBy`, with the query that the
-- services make for a page. A cursor is the date and the identifier of a row; its encoding as a text is
-- left out. `before` is the database's order of two identifiers.
pub mod Walk
use wattanman.Base.{
  ℕ, zero, suc, ◌+◌, String, Bool, true, false, not, ◌&&◌, ◌||◌, Option, none, some, List, [], ◌∷◌,
  ◌++◌, leb, ltb, ◌==◌, length, take, filter, if◌then◌else◌, Result, bad_request, throw_if, ◌>>=◌,
  ◌>>◌, ok, err,
}

pub record Cursor : Type 0 where
  pub created_at : ℕ
  pub id : String

pub record CursorPage (T : Type 0) : Type 0 where
  pub items : List T
  pub next_cursor : Option Cursor
  pub limit : ℕ

-- A missing value, or the number that the text is, if it is one.
pub data Given : Type 0 where
  missing : Given
  not_a_number : Given
  number : ℕ → Given

unfoldable pub parse_page_limit : Given → ℕ → ℕ → Result ℕ
parse_page_limit missing default_limit max_limit = ok default_limit
parse_page_limit not_a_number default_limit max_limit = err bad_request
parse_page_limit (number n) default_limit max_limit = do
  throw_if (ltb n 1 || ltb max_limit n) bad_request
  ok n

module _ {T : Type 0} (cursor_of : T → Cursor) where
  abbrev pub last_cursor : List T → Option Cursor
  last_cursor [] = none
  last_cursor (x ∷ []) = some (cursor_of x)
  last_cursor (x ∷ y ∷ ys) = last_cursor (y ∷ ys)

  unfoldable pub date_id_page_by : List T → ℕ → CursorPage T
  date_id_page_by rows limit =
      let has_more = ltb limit (length rows) in
      let items = if has_more then take limit rows else rows in
      record {
        items = items;
        next_cursor = if has_more then last_cursor items else none;
        limit = limit;
      }

  -- `OR: [{ createdAt: { lt } }, { createdAt, id: { lt } }]`
  abbrev pub is_past : (before : String → String → Bool) → Cursor → T → Bool
  is_past before c row =
      ltb (cursor_of row).created_at c.created_at
      || (((cursor_of row).created_at == c.created_at) && before (cursor_of row).id c.id)

  abbrev pub selected : (before : String → String → Bool) → Option Cursor → T → Bool
  selected before none row = true
  selected before (some c) row = is_past before c row

  -- `findMany` on the rows, which are those that the other conditions of the query select, in its order, and the page that is made of it.
  unfoldable pub find_page :
      (before : String → String → Bool) → List T → ℕ → Option Cursor → CursorPage T
  find_page before rows limit cursor =
      date_id_page_by (take (limit + 1) (filter (selected before cursor) rows)) limit
