-- ===== src/Sample/Live.antt =====
-- Runs of the use cases on the concrete database.
use company_service.Common.{◌≡◌, refl, []}
use company_service.Common.Text.{is_space, rune_count, trim_left, trim_right, trim_space}
use company_service.Errors.{
  GoError, wrapped, duplicate_name, error_text, wrap, not_found, error_is, is_not_found, failure,
}
use company_service.Action.{ok}
use company_service.Domain.{Time, Company, in_utc, local, utc}
use company_service.Json.Events.{marshal_event}
use company_service.Service.{Env, Service, create_company, patch_company, delete_company}
use company_service.Postgres.{Postgres, Machine, World}
use company_service.Postgres.Tx.{within_transaction}
use company_service.Wiring.{request_ctx, app_service}
use company_service.Sample.Memory.{Tables, memory}
use company_service.Sample.Table.{find}
use company_service.Sample.Texts.{unary, unary-CodecLaws}
use company_service.Sample.Setting.{env, service, fresh, acme_input, renaming, acme, with_acme}

pub created :
    (create_company env service request_ctx acme_input fresh).0
    ≡ ok (record acme {
      created_at = record { instant = 12; location = in_utc };
      updated_at = record { instant = 12; location = in_utc };
    })
unfolding create_company company_service.Domain.new_with_id company_service.Domain.validate
    company_service.Errors.new_validation_error company_service.Domain.validation_fields
    company_service.Domain.validate_type company_service.Domain.is_valid
    company_service.Domain.validate_amount_of_employees company_service.Domain.validate_description
    rune_count trim_space trim_right trim_left is_space company_service.Domain.validate_name
    company_service.Service.within_transaction app_service
    company_service.Service.new_service_with_outbox utc company_service.Errors.as_pg_error error_is
    company_service.Errors.set marshal_event company_service.Postgres.Companies.company_repository
    company_service.Postgres.Companies.create company_service.Postgres.Companies.get_by_name
    company_service.Postgres.Companies.map_postgres_error
    company_service.Postgres.Companies.scan_company
    company_service.Postgres.Outbox.outbox_repository company_service.Postgres.Outbox.store
    company_service.Postgres.Tx.commit company_service.Postgres.Tx.finish
    company_service.Postgres.Tx.roll_back company_service.Postgres.Tx.transaction_manager
    within_transaction company_service.Postgres.asked company_service.Postgres.on_executor
    company_service.Postgres.put_back company_service.Postgres.seen
    company_service.Service.create_in_tx company_service.Service.name_is_free
    company_service.Service.publish company_service.Sample.Memory.exec
    company_service.Sample.Memory.query_company company_service.Sample.Memory.run_insert
    company_service.Sample.Memory.run_insert_event company_service.Sample.Table.find
    company_service.Sample.Table.find_row company_service.Sample.Texts.tally
created = refl

changed :
    (patch_company env service request_ctx 7 renaming with_acme).0
    ≡ ok (record acme {
      name = "Acme Ltd";
      created_at = record { instant = 0; location = in_utc };
      updated_at = record { instant = 12; location = in_utc };
    })
unfolding company_service.Domain.new_with_id company_service.Domain.validate
    company_service.Errors.new_validation_error company_service.Domain.validation_fields
    company_service.Domain.validate_type company_service.Domain.is_valid
    company_service.Domain.validate_amount_of_employees company_service.Domain.validate_description
    rune_count trim_space trim_right trim_left is_space company_service.Domain.validate_name
    company_service.Service.within_transaction app_service
    company_service.Service.new_service_with_outbox utc company_service.Errors.as_pg_error error_is
    company_service.Errors.set marshal_event company_service.Postgres.Companies.company_repository
    company_service.Postgres.Companies.create company_service.Postgres.Companies.get_by_name
    company_service.Postgres.Companies.map_postgres_error
    company_service.Postgres.Companies.scan_company
    company_service.Postgres.Outbox.outbox_repository company_service.Postgres.Outbox.store
    company_service.Postgres.Tx.commit company_service.Postgres.Tx.finish
    company_service.Postgres.Tx.roll_back company_service.Postgres.Tx.transaction_manager
    within_transaction company_service.Postgres.asked company_service.Postgres.on_executor
    company_service.Postgres.put_back company_service.Postgres.seen
    company_service.Service.create_in_tx company_service.Service.name_is_free
    company_service.Service.publish company_service.Sample.Memory.exec
    company_service.Sample.Memory.query_company company_service.Sample.Memory.run_insert
    company_service.Sample.Memory.run_insert_event company_service.Sample.Table.find
    company_service.Sample.Table.find_row company_service.Sample.Texts.tally
    company_service.Service.patch_company company_service.Service.patch_in_tx
    company_service.Service.check_new_name company_service.Service.name_is_free_for
    company_service.Domain.apply_patch company_service.Domain.is_empty_patch
    company_service.Domain.patch_name company_service.Domain.patch_description
    company_service.Domain.patch_amount_of_employees company_service.Domain.patch_registered
    company_service.Domain.patch_type company_service.Domain.revalidate
    company_service.Postgres.Companies.get_by_id company_service.Postgres.Companies.update
    company_service.Sample.Memory.run_update company_service.Sample.Table.alter
changed = refl

removed : (delete_company env service request_ctx 7 with_acme).1.committed.companies ≡ []
unfolding company_service.Domain.new_with_id company_service.Domain.validate
    company_service.Errors.new_validation_error company_service.Domain.validation_fields
    company_service.Domain.validate_type company_service.Domain.is_valid
    company_service.Domain.validate_amount_of_employees company_service.Domain.validate_description
    rune_count trim_space trim_right trim_left is_space company_service.Domain.validate_name
    company_service.Service.within_transaction app_service
    company_service.Service.new_service_with_outbox utc company_service.Errors.as_pg_error error_is
    company_service.Errors.set marshal_event company_service.Postgres.Companies.company_repository
    company_service.Postgres.Companies.create company_service.Postgres.Companies.get_by_name
    company_service.Postgres.Companies.map_postgres_error
    company_service.Postgres.Companies.scan_company
    company_service.Postgres.Outbox.outbox_repository company_service.Postgres.Outbox.store
    company_service.Postgres.Tx.commit company_service.Postgres.Tx.finish
    company_service.Postgres.Tx.roll_back company_service.Postgres.Tx.transaction_manager
    within_transaction company_service.Postgres.asked company_service.Postgres.on_executor
    company_service.Postgres.put_back company_service.Postgres.seen
    company_service.Service.create_in_tx company_service.Service.name_is_free
    company_service.Service.publish company_service.Sample.Memory.exec
    company_service.Sample.Memory.query_company company_service.Sample.Memory.run_insert
    company_service.Sample.Memory.run_insert_event company_service.Sample.Table.find
    company_service.Sample.Table.find_row company_service.Sample.Texts.tally
    company_service.Service.delete_company company_service.Service.delete_in_tx
    company_service.Postgres.Companies.get_by_id company_service.Postgres.Companies.delete
    company_service.Sample.Memory.run_delete company_service.Sample.Table.remove
removed = refl

-- The name is taken: an error, and nothing is committed.
taken :
    (create_company env service request_ctx (record acme_input { id = 8 }) with_acme).1.committed
    ≡ with_acme.committed
unfolding create_company company_service.Domain.new_with_id company_service.Domain.validate
    company_service.Errors.new_validation_error company_service.Domain.validation_fields
    company_service.Domain.validate_type company_service.Domain.is_valid
    company_service.Domain.validate_amount_of_employees company_service.Domain.validate_description
    rune_count trim_space trim_right trim_left is_space company_service.Domain.validate_name
    company_service.Service.within_transaction app_service
    company_service.Service.new_service_with_outbox utc company_service.Errors.as_pg_error error_is
    company_service.Errors.set marshal_event company_service.Postgres.Companies.company_repository
    company_service.Postgres.Companies.create company_service.Postgres.Companies.get_by_name
    company_service.Postgres.Companies.map_postgres_error
    company_service.Postgres.Companies.scan_company
    company_service.Postgres.Outbox.outbox_repository company_service.Postgres.Outbox.store
    company_service.Postgres.Tx.commit company_service.Postgres.Tx.finish
    company_service.Postgres.Tx.roll_back company_service.Postgres.Tx.transaction_manager
    within_transaction company_service.Postgres.asked company_service.Postgres.on_executor
    company_service.Postgres.put_back company_service.Postgres.seen
    company_service.Service.create_in_tx company_service.Service.name_is_free
    company_service.Service.publish company_service.Sample.Memory.exec
    company_service.Sample.Memory.query_company company_service.Sample.Memory.run_insert
    company_service.Sample.Memory.run_insert_event company_service.Sample.Table.find
    company_service.Sample.Table.find_row company_service.Sample.Texts.tally
taken = refl
