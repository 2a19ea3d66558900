-- ===== src/Examples/Catalogue.antt =====
-- A publisher with two members, its key, and an extension with a release on its way.
use wattanman.Base.{
  String, true, false, not, ◌&&◌, ◌≡◌, ◌↔◌, ◌⊎◌, refl, Option, none, some, List, [], ◌∷◌, all, any,
  find, ok, is_ok, All,
}
use wattanman.Extensions.Types.{Runtime, State, Dependency, Pricing, ge}
use wattanman.Catalogue.Prices.{PriceRequest, absent, minor, check_pricing}
use wattanman.Catalogue.Members.{Actor, Member, MemberStatus}
use wattanman.Catalogue.Members.Managed.{Command, has_manager, perform_all, perform_all-has_manager}
use wattanman.Catalogue.Types.{
  Stage, is_stage, Area, Release, Offer, OfferStatus, Visibility, Standing, Verification, Publisher,
  SigningKey, KeyStatus, Copy, Verdict, Opinion, Assessment, Validation, Outcome, Catalogue, Terms,
  is_active_offer,
}
use wattanman.Catalogue.Graph.{Node, cycle, done, graph_of, search_cycle, assert_dependency_graph}
use wattanman.Catalogue.Graph.Cycles.{Reaches}
use wattanman.Catalogue.Graph.Fuel.{search_cycle-ends, Loop}
use wattanman.Catalogue.Graph.Accepted.{Meets, assert_dependency_graph_iff}
use wattanman.Catalogue.Releases.{review_separation_required, Site}
use wattanman.Catalogue.Releases.Reviewed.{is_sound}
use wattanman.Catalogue.Releases.Requests.{Request, serve_all}
use wattanman.Catalogue.Releases.History.{serve_all-is_sound}
use wattanman.Catalogue.Standing.{
  is_signed_with, is_served, is_copy_signed_with, is_copy_of, set_signing_key_status,
  set_publisher_status, after_revocation, after_standing,
}
use wattanman.Catalogue.Standing.Revocation.{set_signing_key_status-revoked}
use wattanman.Catalogue.Standing.Suspension.{
  is_by, is_offered, set_publisher_status-suspended, set_publisher_status-resumed,
}

abbrev pub ann : Actor
ann = record { user_id = some "ann"; role = none }

abbrev pub rob : Actor
rob = record { user_id = some "rob"; role = none }

abbrev team : List Member
team =
    record {
      publisher_id = "p1";
      user_id = "ann";
      roles = "MANAGE" ∷ "UPLOAD" ∷ "PUBLISH" ∷ [];
      status = MemberStatus.active;
    }
    ∷ record {
      publisher_id = "p1";
      user_id = "rob";
      roles = "REVIEW" ∷ [];
      status = MemberStatus.active;
    }
    ∷ []

-- The only manager tries to leave, makes another one, and leaves.
abbrev hand_over : List (Actor × Command)
hand_over =
    (ann, Command.set_status "p1" "ann" (some MemberStatus.suspended))
    ∷ (ann, Command.add_by_email "p1" (some "rob@school") ("MANAGE" ∷ "MANAGE" ∷ []))
    ∷ (ann, Command.set_roles "p1" "ann" ("UPLOAD" ∷ []))
    ∷ []

abbrev user_of : String → Option String
user_of address = some "rob"

perform_all-has_manager_example :
    has_manager "p1" (perform_all user_of ("ann" ∷ "rob" ∷ []) hand_over team) ≡ true
unfolding has_manager any
perform_all-has_manager_example =
    perform_all-has_manager user_of ("ann" ∷ "rob" ∷ []) "p1" hand_over team refl

abbrev pub on_loans : Dependency
on_loans = record {
  key = "loans";
  version_range =
      record { operator = ge; target = record { major = 1; minor = 0; patch = 0 } } ∷ [];
  optional = false;
}

abbrev pub waiting : Release
waiting = record {
  id = "r1";
  extension_id = "e1";
  version = "1.0.0";
  number = record { major = 1; minor = 0; patch = 0 };
  dependencies = on_loans ∷ [];
  compatibility_range =
      some (record { operator = ge; target = record { major = 1; minor = 0; patch = 0 } } ∷ []);
  release_notes = some "The first one.";
  status = Stage.awaiting_review;
  uploaded_by = some "ann";
  reviewed_by = none;
  review_notes = none;
  package_storage_key =
      some (record {
        area = Area.quarantine;
        extension_id = "e1";
        release_id = "r1";
        checksum = "abc";
      });
  package_checksum = some "abc";
  package_size = 10;
  signing_key_id = none;
  package_signature = none;
  published_at = none;
  rollout_stage = "INTERNAL";
  rollout_paused_at = none;
}

abbrev pub loans_release : Release
loans_release = record waiting {
  id = "r2";
  extension_id = "e2";
  dependencies = [];
  status = Stage.published;
  reviewed_by = some "rob";
  package_storage_key =
      some (record { area = Area.final; extension_id = "e2"; release_id = "r2"; checksum = "abc" });
  signing_key_id = some "k1";
  package_signature = some "s";
  published_at = some 5;
}

abbrev monthly : Terms
monthly = record {
  pricing_model = Pricing.subscription;
  price_minor = some 500;
  currency = "EUR";
  billing_interval = some "MONTHLY";
  contract_reference = none;
  price_note = none;
}

abbrev pub library_offer : Offer
library_offer = record {
  id = "e1";
  key = "library";
  publisher_id = "p1";
  runtime = Runtime.declarative_module;
  status = OfferStatus.active;
  visibility = Visibility.unlisted;
  is_listed = false;
  terms = monthly;
}

abbrev loans_offer : Offer
loans_offer = record library_offer {
  id = "e2";
  key = "loans";
  visibility = Visibility.listed;
  is_listed = true;
}

abbrev old_offer : Offer
old_offer = record library_offer { id = "e3"; key = "old"; status = OfferStatus.retired }

abbrev pub shop : Catalogue
shop = record {
  offers = library_offer ∷ loans_offer ∷ old_offer ∷ [];
  publishers =
      record {
        id = "p1";
        status = Standing.active;
        internal = true;
        verification = Verification.pending;
      }
      ∷ [];
  members = team;
  keys =
      record {
        id = "k1";
        publisher_id = "p1";
        key_id = "main";
        public_key = "pem";
        status = KeyStatus.active;
      }
      ∷ [];
  releases = waiting ∷ loans_release ∷ [];
  reviews = [];
  validations = record { id = "v1"; release_id = "r1"; status = Outcome.passed } ∷ [];
  copies =
      record {
        id = "i1";
        extension_id = "e2";
        installed_version_id = "r2";
        enabled = true;
        lifecycle_state = State.active;
      }
      ∷ [];
  grants = [];
}

abbrev pub site : Site
site = record {
  separation_required = none;
  node_environment = some "production";
  platform = record { major = 1; minor = 0; patch = 0 };
  signing_key_id = some "main";
  private_key = some "secret";
  signature_of = λ k r. ok "sig";
  store_final = λ r k. ok tt;
}

abbrev fine : Opinion
fine = record { verdict = some Verdict.pass; notes = some "fine" }

abbrev pub good : Assessment
good = record { technical = fine; permissions = fine; privacy = fine; compatibility = fine }

-- The reviewer approves, the manager publishes, edits in vain and revokes the key.
abbrev release_week : List (Actor × Request)
release_week =
    (rob, Request.change_stage 10 "r1" Stage.approved (some "good") (some good))
    ∷ (ann, Request.change_stage 20 "r1" Stage.published none none)
    ∷ (ann, Request.delete "r1" (ok tt))
    ∷ []

serve_all-is_sound_example : all is_sound (serve_all site release_week shop).releases ≡ true
unfolding all any is_sound review_separation_required
serve_all-is_sound_example = serve_all-is_sound site refl release_week shop refl

abbrev two_nodes : List Node
two_nodes =
    record {
      key = "library";
      number = record { major = 1; minor = 0; patch = 0 };
      dependencies = on_loans ∷ [];
    }
    ∷ record {
      key = "loans";
      number = record { major = 1; minor = 0; patch = 0 };
      dependencies = [];
    }
    ∷ []

search_cycle-ends_example :
    ((search_cycle two_nodes "library" ≡ cycle) ↔ Loop two_nodes "library")
    × (¬ Loop two_nodes "library"
        → (vs : List String) × (search_cycle two_nodes "library" ≡ done vs))
unfolding find
search_cycle-ends_example = search_cycle-ends two_nodes "library" refl

assert_dependency_graph_iff_example :
    (is_ok (assert_dependency_graph library_offer waiting shop) ≡ true) ↔ (
      All (Meets (graph_of library_offer waiting shop)) (on_loans ∷ [])
      × ((k : String)
          → ("library" ≡ k) ⊎ Reaches (graph_of library_offer waiting shop) "library" k
          → ¬ Reaches (graph_of library_offer waiting shop) k k))
assert_dependency_graph_iff_example = assert_dependency_graph_iff library_offer waiting shop

abbrev after_key : Catalogue
after_key = after_revocation "k1" shop

set_signing_key_status-revoked_example :
    (any (λ r. is_signed_with "k1" r.signing_key_id && is_served r.status) after_key.releases
      ≡ false)
    × (any (λ c. is_copy_signed_with "k1" after_key.releases c && c.enabled) after_key.copies
        ≡ false)
    × (is_ok (set_signing_key_status none "k1" (some KeyStatus.active) ann after_key) ≡ false)
unfolding set_signing_key_status find wattanman.Catalogue.Members.require_publisher_role any
set_signing_key_status-revoked_example =
    set_signing_key_status-revoked (some "main") none "k1" ann ann KeyStatus.active shop after_key
      refl refl

abbrev after_suspension : Catalogue
after_suspension = after_standing "p1" Standing.suspended shop

set_publisher_status-suspended_example :
    (any (λ o. is_by "p1" o && is_offered o) after_suspension.offers ≡ false)
    × (any (λ c. is_copy_of "p1" after_suspension.offers c && c.enabled) after_suspension.copies
        ≡ false)
unfolding set_publisher_status find wattanman.Catalogue.Members.require_publisher_role any
set_publisher_status-suspended_example =
    set_publisher_status-suspended "p1" Standing.suspended ann shop after_suspension refl refl

abbrev after_return : Catalogue
after_return = after_standing "p1" Standing.active after_suspension

set_publisher_status-resumed_example :
    any (λ o. is_by "p1" o && not (is_active_offer o.status)) after_return.offers ≡ false
unfolding set_publisher_status find wattanman.Catalogue.Members.require_publisher_role any
    after_standing wattanman.Catalogue.Types.update_first
set_publisher_status-resumed_example =
    set_publisher_status-resumed "p1" Standing.suspended ann ann shop after_suspension after_return
      refl refl refl

abbrev monthly_request : PriceRequest
monthly_request = record {
  pricing_model = some (some Pricing.subscription);
  price_minor = some (minor 500);
  rounded_price = absent;
  currency = some "EUR";
  billing_interval = some "MONTHLY";
  contract_reference = some "old";
  price_note = none;
}

monthly_written : check_pricing monthly_request ≡ ok monthly
unfolding check_pricing any wattanman.Catalogue.Currency.is_currency
monthly_written = refl
