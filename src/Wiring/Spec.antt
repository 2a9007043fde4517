-- ===== src/Wiring/Spec.antt =====
-- What the use cases promise of the committed rows.
use company_service.Common.{
  ℕ, ◌≡◌, ◌≢◌, ◌≤◌, ◌∙◌, String, arith, sym, none, some, nat_eq, if◌then◌else◌,
}
use company_service.Action.{ok}
use company_service.Domain.{Uuid, Time, Company, in_utc}
use company_service.Domain.Validation.{IsValid}
use company_service.Domain.Patching.{patched}
use company_service.Service.{patch_of}
use company_service.Application.{
  Event, PatchInput, event_company_created, event_company_updated, event_company_deleted,
}
use company_service.Json.{Json, Codec}
use company_service.Json.Events.{marshal_event}
use company_service.Postgres.{Postgres}
use company_service.Postgres.Laws.{loaded, stored, fresh_row, overwritten, NameFree, SameOutbox}

module _ (pg : Postgres) (codec : Codec) where
  -- Exactly one row was added to the outbox: an unpublished event of the kind `kind`, due at once,
  -- whose payload is the encoded event with the company `c`.
  pub record EventAdded (kind : String) (c : Company) (db db' : pg.Db) : Type 0 where
    pub event : Event
    pub payload : Json
    pub kind_of : event.event_type ≡ kind
    pub about : event.company ≡ some c
    pub about_id : event.company_id ≡ c.id
    pub at_utc : event.occurred_at.location ≡ in_utc
    pub encoded : marshal_event codec event ≡ ok payload
    pub id_was_free : pg.outbox_at db event.id ≡ none
    pub available_at : ℕ
    pub due : available_at ≤ pg.now db'
    pub rows :
        (i : Uuid)
        → pg.outbox_at db' i ≡ (
            if nat_eq event.id i
            then some (fresh_row pg event.id kind c.id payload event.occurred_at available_at)
            else pg.outbox_at db i)

  -- CreateCompany: one new company under an identifier and a name that were free, and its event.
  pub record Created (c : Company) (db db' : pg.Db) : Type 0 where
    pub id_was_free : pg.company_at db c.id ≡ none
    pub name_was_free : NameFree pg db c.name
    pub rows :
        (i : Uuid)
        → pg.company_at db' i ≡ (if nat_eq c.id i then some (stored pg c) else pg.company_at db i)
    pub event : EventAdded event_company_created c db db'

  -- A statement on companies before the event changes nothing of it.
  pub EventAdded-after :
      {kind : String} {c : Company} {db db1 db2 : pg.Db}
      → SameOutbox pg db db1
      → EventAdded kind c db1 db2
      → EventAdded kind c db db2
  EventAdded-after same e = record {
    event = e.event;
    payload = e.payload;
    kind_of = e.kind_of;
    about = e.about;
    about_id = e.about_id;
    at_utc = e.at_utc;
    encoded = e.encoded;
    id_was_free = sym (same.at e.event.id) ∙ e.id_was_free;
    available_at = e.available_at;
    due = e.due;
    rows = λ i. ground (arith, e.rows i, same.at i);
  }

  -- DeleteCompany: the row is gone, and its event carries the company that it held.
  pub record Removed (id : Uuid) (c : Company) (db db' : pg.Db) : Type 0 where
    pub row : Company
    pub was_there : pg.company_at db id ≡ some row
    pub company : c ≡ loaded row
    pub rows : (i : Uuid) → pg.company_at db' i ≡ (if nat_eq id i then none else pg.company_at db i)
    pub event : EventAdded event_company_deleted c db db'

  -- PatchCompany: the row holds the patched company, whose name no other row has, and its event
  -- carries it.
  pub record Changed (id : Uuid) (input : PatchInput) (c : Company) (db db' : pg.Db) : Type 0 where
    pub row : Company
    pub was_there : pg.company_at db id ≡ some row
    pub now : Time
    pub company : c ≡ patched now (patch_of input) (loaded row)
    pub stays : IsValid (loaded row) → IsValid c
    pub name_was_free :
        (i : Uuid) (d : Company) → pg.company_at db i ≡ some d → i ≢ id → d.name ≢ c.name
    pub rows :
        (i : Uuid)
        → pg.company_at db' i
          ≡ (if nat_eq id i then overwritten pg c (some row) else pg.company_at db i)
    pub event : EventAdded event_company_updated c db db'
