-- ===== src/Routing/Import/Runs.antt =====
-- How the entries that a rule is shared with are read one by one (RouteProfile.cpp,
-- `parse_rule_object`, on what RouteRule.cpp writes).
use free_link_app.Common.{
  ℤ, String, String_eq, ℤ_eq, ◌≡◌, refl, true, false, ◌&&◌, some, List, [], ◌∷◌, ◌++◌, ◌==◌,
  if◌then◌else◌, arith, ◌≢◌, int_eq_iff,
}
use free_link_app.Qt.{Qt}
use free_link_app.Json.{str}
use free_link_app.Routing.Attribute.{attribute_of}
use free_link_app.Routing.RuleType.{invalid_id, direct_id, rule_type_to_token}
use free_link_app.Routing.Rule.{RouteRule, new_rule}
use free_link_app.Routing.Rule.Values.{set_field_value, set_attribute}
use free_link_app.Routing.Profiles.{Profiles}
use free_link_app.Routing.RuleJson.{
  Entry, match_entries, option_entries, last_entries, routes, takes_override, view_outbound,
}
use free_link_app.Routing.Import.{Draft, set_outbound, parse_key, get_outbound_id}
use free_link_app.Routing.Import.Steps.{
  Run, done, next, Run-append, list_step, numbers_step, number_step, text_step, plain_text_step,
  option_text_step, unknown_step, flag_step,
}
use free_link_app.Routing.Import.Tidy.{IsTidy}

-- The conditions that come over: all but the IP version and the two lists of ports.
abbrev pub matched : RouteRule → RouteRule
matched r = record new_rule {
  network = r.network;
  protocol = r.protocol;
  inbound = r.inbound;
  domain = r.domain;
  domain_suffix = r.domain_suffix;
  domain_keyword = r.domain_keyword;
  domain_regex = r.domain_regex;
  source_ip_cidr = r.source_ip_cidr;
  ip_cidr = r.ip_cidr;
  source_port_range = r.source_port_range;
  port_range = r.port_range;
  process_name = r.process_name;
  process_path = r.process_path;
  process_path_regex = r.process_path_regex;
  wifi_ssid = r.wifi_ssid;
  wifi_bssid = r.wifi_bssid;
  rule_set = r.rule_set;
  source_ip_is_private = r.source_ip_is_private;
  ip_is_private = r.ip_is_private;
  invert = r.invert;
}

module _ (q : Qt) (p : Profiles) (r : RouteRule) (w : List String) where
  matched-Run : IsTidy q r → Run q p (match_entries q true r) (new_rule, w) (matched r, w)
  unfolding match_entries set_field_value attribute_of set_attribute
  matched-Run t =
      (next (number_step q p "ip_version" _ w refl _ _) (
        next (plain_text_step q p "network" _ w refl (λ v r. record r { network = v }) _ refl refl)
          (next
            (plain_text_step q p "protocol" _ w refl (λ v r. record r { protocol = v }) _ refl refl)
            (next
              (list_step q p "inbound" _ w refl (λ v r. record r { inbound = v }) _ (λ u. refl) refl
                t.inbound)
              (next
                (list_step q p "domain" _ w refl (λ v r. record r { domain = v }) _ (λ u. refl) refl
                  t.domain)
                (next
                  (list_step q p "domain_suffix" _ w refl (λ v r. record r { domain_suffix = v }) _
                    (λ u. refl) refl t.domain_suffix)
                  (next
                    (list_step q p "domain_keyword" _ w refl
                      (λ v r. record r { domain_keyword = v }) _ (λ u. refl) refl t.domain_keyword)
                    (next
                      (list_step q p "domain_regex" _ w refl (λ v r. record r { domain_regex = v })
                        _ (λ u. refl) refl t.domain_regex)
                      (next
                        (list_step q p "source_ip_cidr" _ w refl
                          (λ v r. record r { source_ip_cidr = v }) _ (λ u. refl) refl
                          t.source_ip_cidr)
                        (next
                          (flag_step q p "source_ip_is_private" _ w refl
                            (λ v r. record r { source_ip_is_private = v }) _ _ refl (λ e. e) refl)
                          (next
                            (list_step q p "ip_cidr" _ w refl (λ v r. record r { ip_cidr = v }) _
                              (λ u. refl) refl t.ip_cidr)
                            (next
                              (flag_step q p "ip_is_private" _ w refl
                                (λ v r. record r { ip_is_private = v }) _ _ refl (λ e. e) refl)
                              (next
                                (numbers_step q p "source_port" _ w refl
                                  (λ v r. record r { source_port = v }) _ (λ u. refl) refl)
                                (next
                                  (list_step q p "source_port_range" _ w refl
                                    (λ v r. record r { source_port_range = v }) _ (λ u. refl) refl
                                    t.source_port_range)
                                  (next
                                    (numbers_step q p "port" _ w refl (λ v r. record r { port = v })
                                      _ (λ u. refl) refl)
                                    (next
                                      (list_step q p "port_range" _ w refl
                                        (λ v r. record r { port_range = v }) _ (λ u. refl) refl
                                        t.port_range)
                                      (next
                                        (list_step q p "process_name" _ w refl
                                          (λ v r. record r { process_name = v }) _ (λ u. refl) refl
                                          t.process_name)
                                        (next
                                          (list_step q p "process_path" _ w refl
                                            (λ v r. record r { process_path = v }) _ (λ u. refl)
                                            refl t.process_path)
                                          (next
                                            (list_step q p "process_path_regex" _ w refl
                                              (λ v r. record r { process_path_regex = v }) _
                                              (λ u. refl) refl t.process_path_regex)
                                            (next
                                              (list_step q p "wifi_ssid" _ w refl
                                                (λ v r. record r { wifi_ssid = v }) _ (λ u. refl)
                                                refl t.wifi_ssid)
                                              (next
                                                (list_step q p "wifi_bssid" _ w refl
                                                  (λ v r. record r { wifi_bssid = v }) _ (λ u. refl)
                                                  refl t.wifi_bssid)
                                                (next
                                                  (list_step q p "rule_set" _ w refl
                                                    (λ v r. record r { rule_set = v }) _ (λ u. refl)
                                                    refl t.rule_set)
                                                  (next
                                                    (flag_step q p "invert" _ w refl
                                                      (λ v r. record r { invert = v }) _ _ refl
                                                      (λ e. e) refl)
                                                    done)))))))))))))))))))))))

-- The rule that the other machine reads, when the outbound of a routing rule is `i` there.
abbrev pub imported : ℤ → RouteRule → RouteRule
imported i r = record (matched r) {
  action = r.action;
  no_drop = r.action == "reject" && r.no_drop;
  override_address = if takes_override r.action then r.override_address else "";
  outbound_id = if routes r.action then i else direct_id;
  sniff_override_dest = r.action == "sniff" && r.sniff_override_dest;
  strategy = if r.action == "resolve" then r.strategy else "";
}

abbrev optioned : RouteRule → RouteRule
optioned r = record (matched r) {
  action = r.action;
  no_drop = r.action == "reject" && r.no_drop;
  override_address = if takes_override r.action then r.override_address else "";
}

module _ (q : Qt) (p : Profiles) (r : RouteRule) (w : List String) where
  optioned-Run : Run q p (option_entries q r) (matched r, w) (optioned r, w)
  unfolding option_entries set_field_value attribute_of set_attribute
  optioned-Run =
      (next
        (text_step q p "action" _ w refl (λ v s. record s { action = v }) r.action true refl
          (λ e. cc))
        (next (unknown_step q p "reject_method" _ w refl _ _ refl) (
          next
            (flag_step q p "no_drop" _ w refl (λ v s. record s { no_drop = v }) _ _ refl
              (λ e. ground arith) refl)
            (next
              (option_text_step q p "override_address" _ w refl
                (λ v s. record s { override_address = v }) r.override_address
                (takes_override r.action) refl refl)
              (next (number_step q p "override_port" _ w refl _ _) done)))))

  last-Run :
      (i : ℤ)
      → Run q p
          (last_entries r)
          (record (optioned r) { outbound_id = i }, w)
          (
            record (optioned r) {
              outbound_id = i;
              sniff_override_dest = r.action == "sniff" && r.sniff_override_dest;
              strategy = if r.action == "resolve" then r.strategy else "";
            },
            w,
          )
  unfolding last_entries set_field_value attribute_of set_attribute
  last-Run i =
      (next
        (flag_step q p "override_destination" _ w refl (λ v s. record s { sniff_override_dest = v })
          _ _ refl (λ e. ground arith) refl)
        (next
          (option_text_step q p "strategy" _ w refl (λ v s. record s { strategy = v }) r.strategy
            (r.action == "resolve") refl refl)
          done))

-- The outbound that a routing rule is shared with is, on the importing machine, that of id `i`.
abbrev pub Lands : Profiles → Profiles → ℤ → RouteRule → Type 0
Lands p p' i r =
    routes r.action ≡ true
    → (n : String) × (view_outbound p r.outbound_id ≡ some (str n))
      × (get_outbound_id p' n ≡ i)
      × (i ≢ invalid_id)

abbrev pub rule_entries : Qt → List Entry → RouteRule → List Entry
rule_entries q out r = match_entries q true r ++ (option_entries q r ++ (out ++ last_entries r))

abbrev pub label_entries : RouteRule → List Entry
label_entries r =
    (true, "name", str r.name) ∷ (true, "type", str (rule_type_to_token r.rule_type)) ∷ []

abbrev pub outbound_entry : String → List Entry
outbound_entry n = (true, "outbound", str n) ∷ []

module _ (q : Qt) (p : Profiles) (r : RouteRule) (w : List String) where
  label-Run : (d : Draft) → Run q p (label_entries r) d d
  unfolding parse_key
  label-Run d = next refl (next refl done)

  outbound-Run :
      (i : ℤ) (n : String) (s : RouteRule)
      → get_outbound_id p n ≡ i
      → i ≢ invalid_id
      → Run q p (outbound_entry n) (s, w) (record s { outbound_id = i }, w)
  unfolding parse_key set_outbound
  outbound-Run i n s h k = next (ground (arith, h, int_eq_iff i invalid_id)) done

  pub routed-Run :
      (i : ℤ) (n : String)
      → IsTidy q r
      → routes r.action ≡ true
      → get_outbound_id p n ≡ i
      → i ≢ invalid_id
      → Run q p
          (rule_entries q (outbound_entry n) r ++ label_entries r)
          (new_rule, w)
          (imported i r, w)
  routed-Run i n t a h k = rw a (
      Run-append q p
        (Run-append q p (matched-Run q p r w t) (
          Run-append q p (optioned-Run q p r w)
            (Run-append q p (outbound-Run i n (optioned r) h k) (last-Run q p r w i))))
        (label-Run _))

  pub unrouted-Run :
      (i : ℤ)
      → IsTidy q r
      → routes r.action ≡ false
      → Run q p (rule_entries q [] r ++ label_entries r) (new_rule, w) (imported i r, w)
  unrouted-Run i t a = rw a (
      Run-append q p
        (Run-append q p (matched-Run q p r w t)
          (Run-append q p (optioned-Run q p r w) (last-Run q p r w direct_id)))
        (label-Run _))
