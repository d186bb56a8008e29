-- ===== src/Tests/Listing.antt =====
-- Pages of operations at concrete inputs.
use Prim.Native.Char.{code}
use update_service.Base.{
  ◌≡◌, refl, String, Bool, true, false, ◌&&◌, ◌||◌, none, some, List, [], ◌∷◌, ◌++◌, ltb, ◌==◌,
  arith, IsCollation, AreDistinct,
}
use update_service.Domain.Operation.{Operation}
use update_service.Effect.{Returns, pure, ◌>>=◌, World}
use update_service.Effect.Tables.{OperationRow}
use update_service.Repositories.Operations.Listing.{page, filtered, has_status, has_processor}
use update_service.UseCases.List.{filter_of, execute}
use update_service.UseCases.List.Paging.{two_pages}
use update_service.Tests.Worlds.{
  world, reliable, reliable-IsReliable, fresh_row, failed_row, tables,
}

-- The binary collation: texts compared character by character.
abbrev binary : String → String → Bool
binary String.[] b = true
binary (String.◌∷◌ c s) String.[] = false
binary (String.◌∷◌ c s) (String.◌∷◌ d t) =
    ltb (code c) (code d) || ((code c == code d) && binary s t)

binary-total : (a b : String) → binary a b ≡ false → binary b a ≡ true
binary-total String.[] b h = absurd (cc h)
binary-total (String.◌∷◌ c s) String.[] h = refl
binary-total (String.◌∷◌ c s) (String.◌∷◌ d t) h = ground (arith, h, binary-total s t)

binary_trans : (a b c : String) → binary a b ≡ true → binary b c ≡ true → binary a c ≡ true
binary_trans String.[] b c h k = refl
binary_trans (String.◌∷◌ c s) String.[] e h k = absurd (cc h)
binary_trans (String.◌∷◌ c s) (String.◌∷◌ d t) String.[] h k = absurd (cc k)
binary_trans (String.◌∷◌ c s) (String.◌∷◌ d t) (String.◌∷◌ e u) h k =
    ground (arith, h, k, binary_trans s t u)

binary-IsCollation : IsCollation binary
binary-IsCollation = record { total = binary-total; trans = binary_trans }

-- Three operations, out of order.
abbrev three : World
three = record world {
  db = record tables {
    operations = record fresh_row { id = "op-3" } ∷ (fresh_row ∷ (failed_row ∷ []));
  };
}

three-AreDistinct : AreDistinct binary OperationRow.id three.db.operations
three-AreDistinct =
    ((λ h. absurd (cc h), (λ h. absurd (cc h), tt)), ((λ h. absurd (cc h), tt), (tt, tt)))

two_pages_example :
    Returns {A = List Operation × List Operation}
      ((do
        a ←
            execute binary
              (record { status = none; processor = some "firmware"; cursor = none; limit = 2 })
        b ←
            execute binary (record {
              status = none;
              processor = some "firmware";
              cursor = some "op-2";
              limit = 1;
            })
        c ←
            execute binary
              (record { status = none; processor = some "firmware"; cursor = none; limit = 3 })
        pure (a.operations ++ b.operations, c.operations))
        reliable three)
      (λ r _. r.0 ≡ r.1)
unfolding page filtered has_status has_processor filter_of
two_pages_example =
    two_pages binary binary-IsCollation none (some "firmware") none reliable three (failed_row ∷ [])
      fresh_row 1 0 reliable-IsReliable three-AreDistinct refl
