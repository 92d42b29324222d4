-- ===== src/Domain/Pages.antt =====
-- internal/domain/pagination.go, and the documented behaviour of the uuid package that the program
-- uses: the text of an id, and the parser of such texts.
use storefront.Common.{
  Bool, List, Option, Text, [], codes, false, if◌then◌else◌, leb_ℤ, none, pos, some, text_eq, true,
  ℕ, ℤ, ◌≡◌, ◌≢◌,
}
use storefront.Errors.{Result, err, message, ok}

abbrev pub Uuid : Type 0
Uuid = ℕ

-- uuid.UUID.String and uuid.Parse.
pub record UuidText : Type 0 where
  pub format : Uuid → Text
  pub parse : Text → Option Uuid
  pub parse-format : (id : Uuid) → parse (format id) ≡ some id
  pub format_nonempty : (id : Uuid) → format id ≢ []

abbrev pub default_page_size : ℤ
default_page_size = pos 50

abbrev pub max_page_size : ℤ
max_page_size = pos 200

pub record Cursor : Type 0 where
  pub id : Uuid
  pub valid : Bool

abbrev pub no_cursor : Cursor
no_cursor = record { id = 0; valid = false }

unfoldable pub new_cursor : Uuid → Cursor
new_cursor id = record { id = id; valid = true }

-- `Cursor.After`
unfoldable pub after : Cursor → Uuid × Bool
after c = (c.id, c.valid)

abbrev min_ℤ : ℤ → ℤ → ℤ
min_ℤ a b = if leb_ℤ a b then a else b

unfoldable pub normalize_page_size : ℤ → ℤ
normalize_page_size n = if leb_ℤ n (pos 0) then default_page_size else min_ℤ n max_page_size

abbrev cursor_of : Option Uuid → Result Cursor
cursor_of none = err (message (codes "invalid cursor"))
cursor_of (some id) = ok (record { id = id; valid = true })

unfoldable pub parse_cursor : UuidText → Text → Result Cursor
parse_cursor u raw = if text_eq raw [] then ok no_cursor else cursor_of (u.parse raw)

-- `NextCursor` of both page types, on the id of the last item: "" when this is the last page.
abbrev pub last_id : UuidText → Option Uuid → Text
last_id u none = []
last_id u (some id) = u.format id

unfoldable pub next_cursor : UuidText → Bool → List Uuid → Text
next_cursor u has_more ids = if has_more then last_id u (storefront.Common.get_last? ids) else []
