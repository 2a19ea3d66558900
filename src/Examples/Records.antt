-- ===== src/Examples/Records.antt =====
-- A module's records, two callers of one of them, and a list that is read page by page.
use wattanman.Base.{
  ℕ, ◌<◌, ◌≤◌, String, Bool, true, false, ◌≡◌, refl, Option, none, some, List, [], ◌∷◌, Result, ok,
  is_ok, arith, all,
}
use wattanman.Base.Table.{of_list}
use wattanman.Extensions.Migrations.{Record}
use wattanman.Extensions.Upgrade.{Usage}
use wattanman.Extensions.Records.{
  Access, Page, Resource, Module, Permission, Site, Limits, Shelf, Written, update_record,
  delete_record,
}
use wattanman.Extensions.Records.Schema.{Kind, Field, Value}
use wattanman.Extensions.Records.Counters.{IsExact, IsWithin}
use wattanman.Extensions.Records.Quota.{Command, perform_all, perform_all-IsExact}
use wattanman.Extensions.Records.Quota.{perform}
use wattanman.Extensions.Records.Admission.{is_admissible}
use wattanman.Extensions.Records.{find_row}
use wattanman.Extensions.Records.View.{Promised, view, is_keyed, perform-Promised}
use wattanman.Extensions.Records.Versions.{update_record-once}
use wattanman.Common.Pages.{Cursor}
use wattanman.Common.Pages.Walk.{walk, walk_complete}
use wattanman.Examples.Sample.{library, first_version, active_row, no_switches}
use wattanman.Base.Map.{empty}
use Prim.Native.String.{compare}
use Prim.Native.Nat.{Ordering}

abbrev on_books : Permission
on_books = record { resource = "books"; access = Access.write; text = "books:write" }

abbrev library_module : Module
library_module = record {
  loaded = record {
    row = active_row;
    extension = library;
    version = record first_version { permissions = "books:write" ∷ [] };
  };
  is_active = true;
  pages = record { resource = "books"; roles = "TEACHER" ∷ [] } ∷ [];
  resources =
      record {
        name = "books";
        fields = record { key = "title"; kind = Kind.text; required = true } ∷ [];
      }
      ∷ [];
}

abbrev site : Site
site = record {
  modules = of_list (library_module ∷ []);
  switches = of_list no_switches;
  verified = λ m. ok tt;
}

abbrev limits : Limits
limits = record {
  installation_bytes = 100;
  installation_records = 2;
  school_bytes = 1000;
  school_records = 20;
}

abbrev book : Record
book = record {
  id = "b1";
  resource = "books";
  fields = empty;
  byte_size = 40;
  version_id = "v1";
  schema_version = 1;
  concurrency_version = 3;
  updated_by = none;
}

abbrev shelf : Shelf
shelf = record {
  rows = book ∷ [];
  used = record { bytes = 40; records = 1 };
  school = record { bytes = 540; records = 11 };
}

abbrev others : Usage
others = record { bytes = 500; records = 10 }

abbrev title : Written
title = record {
  data_ = ("title", Value.text_value "Emma") ∷ [];
  fields = empty;
  byte_size = 60;
  user_id = "u1";
}

-- One record more, one that is too large, a deletion and an update.
abbrev morning : List Command
morning =
    Command.creates site "library" on_books "TEACHER" "b2" title
    ∷ Command.creates site "library" on_books "TEACHER" "b3" title
    ∷ Command.deletes site "library" on_books "TEACHER" "b1" (some 3)
    ∷ Command.updates site "library" on_books "TEACHER" "b2" (some 1) title
    ∷ []

perform_all-IsExact_example :
    IsExact others (perform_all limits morning shelf)
    × IsWithin limits (perform_all limits morning shelf)
perform_all-IsExact_example =
    perform_all-IsExact limits others morning shelf
      (record {
        bytes = omega arith;
        records = omega arith;
        school_bytes = omega arith;
        school_records = omega arith;
      })
      (record {
        bytes = omega arith;
        records = omega arith;
        school_bytes = omega arith;
        school_records = omega arith;
      })

abbrev new_book : Record
new_book = record book { byte_size = 60; concurrency_version = 4; updated_by = some "u1" }

abbrev new_shelf : Shelf
new_shelf = record {
  rows = new_book ∷ [];
  used = record { bytes = 60; records = 1 };
  school = record { bytes = 560; records = 11 };
}

update_record-once_example :
    ((w' : Written)
      → is_ok (update_record site limits "library" on_books "TEACHER" "b1" (some 3) w' new_shelf)
        ≡ false)
    × (is_ok (delete_record site limits "library" on_books "TEACHER" "b1" (some 3) new_shelf)
        ≡ false)
unfolding update_record wattanman.Extensions.Records.authorize
    wattanman.Extensions.Records.installation wattanman.Base.find
    wattanman.Extensions.Controls.assert_allowed wattanman.Base.any
    wattanman.Extensions.Records.Schema.validate_data wattanman.Extensions.Records.Schema.value_of
    wattanman.Extensions.Records.expected_row wattanman.Extensions.Records.find_row
    wattanman.Extensions.Records.adjust_bytes wattanman.Extensions.Records.reserve_capacity
    wattanman.Extensions.Records.put_row
update_record-once_example =
    update_record-once limits site site "library" "library" on_books on_books "TEACHER" "TEACHER"
      "b1" (some 3) title new_book shelf new_shelf refl

abbrev cursor_of : (ℕ × String) → Cursor
cursor_of (at, id) = record { created_at = at; id = id }

abbrev is_less : String → String → Bool
is_less a b = elim (compare a b) [ Ordering.lt ↦ true | _ ↦ false ]

abbrev entries : List (ℕ × String)
entries = (9, "a") ∷ (7, "c") ∷ (7, "b") ∷ (2, "d") ∷ []

walk_complete_example : walk cursor_of is_less 5 entries 2 none ≡ some entries
walk_complete_example =
    walk_complete cursor_of is_less 2 5 entries (omega arith)
      (
        refl,
        ((refl, refl), ((refl, refl), ((refl, refl), tt))),
        (refl, ((refl, refl), ((refl, refl), tt)), (refl, ((refl, refl), tt), (refl, tt, tt))),
      )
      (omega arith)

abbrev update_b1 : Command
update_b1 = Command.updates site "library" on_books "TEACHER" "b1" (some 3) title

perform-Promised_example :
    Promised update_b1
      (is_admissible limits update_b1 shelf)
      (view shelf)
      (view (perform limits update_b1 shelf))
unfolding is_keyed find_row
perform-Promised_example = perform-Promised limits update_b1 shelf refl
