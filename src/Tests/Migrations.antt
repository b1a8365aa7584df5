-- ===== src/Tests/Migrations.antt =====
-- The migrations, over a value of the parameter that holds what is there by name.
use realtime_notification_pl.Prelude.{◌≡◌, refl, none, some, map, List}
use realtime_notification_pl.Prelude.Lists.{All}
use realtime_notification_pl.Ddl.Catalog.{Shelf, with_table, with_index, catalog}
use realtime_notification_pl.Alembic.Versions.{
  notifications_table, user_unread_index, delivery_log_table, delivery_log_index,
  read_receipts_table, receipts_notification_index, receipts_user_index, Revision, third, history,
  run,
}
use realtime_notification_pl.Alembic.Versions.RoundTrip.{
  upgrades, downgrades, Same, downgrades-upgrades,
}
use realtime_notification_pl.Alembic.Versions.Models.{
  migrated, models, model_indexes, upgraded_models,
}

abbrev bare : Shelf
bare = record { tables = λ n. none; indexes = λ n. none }

abbrev all : List Revision
all = history 3 (some third)

abbrev upgraded : Shelf
upgraded = with_index receipts_user_index (
    with_index receipts_notification_index (
      with_table read_receipts_table (
        with_index delivery_log_index (
          with_table delivery_log_table
            (with_index user_unread_index (with_table notifications_table bare))))))

accepted : run catalog (upgrades all) bare ≡ some upgraded
accepted = refl

downgrades-upgrades_example :
    (s0 : Shelf) × (run catalog (downgrades all) upgraded ≡ some s0) × Same catalog bare s0
downgrades-upgrades_example = downgrades-upgrades catalog all bare upgraded accepted

upgraded_models_example :
    All (λ m. upgraded.tables m.name ≡ some (record m { columns = map migrated m.columns })) models
    × All (λ i. catalog.index_of upgraded i.name ≡ some i) model_indexes
upgraded_models_example = upgraded_models catalog bare upgraded accepted
