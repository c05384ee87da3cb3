-- ===== src/Storage/Pages.antt =====
-- The loop by which a client of a storage reads a listing: page after page, each from the cursor that
-- the one before gave.
use langgraph_cpp.Prelude.{
  ℕ, zero, suc, String, true, false, Option, none, some, List, Result, ok, err, ◌==◌, text_key,
}
use langgraph_cpp.Storage.{StorageItem, StorageListResult}

module _ {A : Type 0} where
  -- `body` takes a page's items in; `none` means that the fuel ran out.
  unfoldable pub each_page :
      (String → Result StorageListResult)
      → (A → List StorageItem → Result A)
      → ℕ
      → String
      → A
      → Option (Result A)
  each_page read body zero cursor acc = none
  each_page read body (suc fuel) cursor acc = elim (read cursor) [
    | err e ↦ some (err e)
    | ok page ↦ elim (body acc page.items) [
      | err e ↦ some (err e)
      | ok next ↦ elim (page.next_cursor == "") [
        | true ↦ some (ok next)
        | false ↦ each_page read body fuel page.next_cursor next
      ]
    ]
  ]
