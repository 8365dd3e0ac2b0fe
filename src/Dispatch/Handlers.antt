-- ===== src/Dispatch/Handlers.antt =====
-- The handler names, which the source spells as texts: those that `dispatch` returns, and those
-- of `handle_wire` and of the listeners in honey_ns.py.
pub data Handler : Type 0 where
  exempt_source exempt refused_class refused_xfr formerr_meta_qtype : Handler
  synth_txt_ch_version_bind synth_txt_ch minimal_any_hinfo_ch ch_nodata : Handler
  minimal_any_hinfo synth_a nodata_no_v6 synth_aaaa synth_ns synth_soa synth_mx synth_txt : Handler
  nodata : Handler
  parse_error qr_set bad_opcode bad_qcount handler_crash budget_exhausted : Handler

pub Handler-discrete : Discrete Handler
Handler-discrete = hlevel
