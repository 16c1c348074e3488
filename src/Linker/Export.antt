-- ===== src/Linker/Export.antt =====
-- `toExported` of cmd/proof/main.go: a stored row in the form that is exported and verified.
use proof.Prelude.{◌==◌, if◌then◌else◌, []}
use proof.ChainFormat.Hash.{format_v2, normalize_format_version}
use proof.Store.{Row}
use proof.Verify.{Entry}
use proof.Verify.Walker.{format_timestamp}

unfoldable pub to_exported : Row → Entry
to_exported r =
    let is_v2 = normalize_format_version r.format_version == format_v2 in
    record {
      entry_id = r.entry_id;
      entry_type = r.entry_type;
      timestamp = format_timestamp r.timestamp;
      format_version = if is_v2 then 0 else r.format_version;
      run_id = if is_v2 then r.run_id else [];
      sequence_num = if is_v2 then r.sequence_num else 0;
      global_seq = r.global_seq;
      content_hash = r.content_hash;
      chain_hash = r.chain_hash;
    }
