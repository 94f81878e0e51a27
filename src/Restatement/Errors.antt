-- ===== src/Restatement/Errors.antt =====
-- The exceptions that the restatement services raise, by their message.
pub data EdgarError : Type 0 where
  -- `EdgarMappingError`
  identity_mismatch version_not_found versions_out_of_order : EdgarError
  no_earlier_version no_later_version : EdgarError
  -- `EdgarIngestionError`
  too_few_versions no_versions : EdgarError
  -- `IndexError` of a list
  index_out_of_range : EdgarError
  -- `ValueError` of a value object
  diff_inconsistent blank_cik bad_fiscal_year blank_currency : EdgarError
  bad_version_sequence empty_ledger bad_total_hops : EdgarError
  hop_out_of_range negative_delta unknown_metric : EdgarError
