-- ===== src/Config/Chain.antt =====
-- The outbounds of a chain: each hop dials through the next (src/configs/generate.cpp).
pub mod Links
use free_link_app.Common.{
  is_empty, ℕ, zero, suc, ◌+◌, ℤ, pos, negsuc, ℤ_eq, String, ◌<>◌, String_eq, Bool, true, false,
  not, ◌&&◌, ◌||◌, Option, none, some, List, [], ◌∷◌, ◌++◌, ◌==◌, if◌then◌else◌, length, map,
  is_none,
}
use free_link_app.Json.{
  Json, bool, num, str, arr, obj, nil, cons, Fields, end, field, set_key, get_key, text_at,
  object_at, array_at, is_empty_object,
}
use free_link_app.Config.Context.{Bridge, no_bridge, Hop, ChainGroup, Context, World, Draws}
use free_link_app.Config.Hops.{Scan, ent_list, Parts, parts_of}

-- The arguments of buildSingboxChain and buildXrayChain that stay the same for all hops.
pub record Chaining : Type 0 where
  pub prefix : String
  pub include_proxy : Bool
  pub link : Bool
  pub start_suffix : ℕ
  pub mark_ingress : Bool
  pub warp_wrap : Bool

-- prefix + "-" + Int2String(n)
abbrev pub numbered : World → String → ℕ → String
numbered w prefix n = prefix <> ("-" <> w.number n)

abbrev pub is_first : ℕ → Bool
is_first zero = true
is_first (suc n) = false

abbrev pub is_second : ℕ → Bool
is_second zero = false
is_second (suc n) = is_first n

-- The tag of hop `idx`.
unfoldable pub sing_tag : World → Chaining → ℕ → String
sing_tag w c idx =
    if c.warp_wrap && is_second idx
    then "warp-bypass"
    else if c.include_proxy && is_first idx
    then "proxy"
    else numbered w c.prefix (c.start_suffix + idx)

-- The object of hop `idx`, which dials through the next one, where there is a next one.
unfoldable pub dress_sing : World → Chaining → ℕ → Bool → Fields → Fields
unfolding sing_tag
dress_sing w c idx more object =
    let tagged = set_key "tag" (str (sing_tag w c idx)) object in
    let linked =
      if more && c.link
      then set_key "detour" (str (numbered w c.prefix (suc (c.start_suffix + idx)))) tagged
      else tagged in
    if c.warp_wrap && is_first idx then set_key "detour" (str "warp-bypass") linked else linked

abbrev pub mark : String → Bool → Context → Context
mark tag here ctx =
    if here then record ctx { sing_ingress_tags = ctx.sing_ingress_tags ++ tag ∷ [] } else ctx

abbrev pub add_object : Hop → Fields → Context → Context
add_object ent object ctx =
    if ent.is_endpoint
    then record ctx { endpoints = ctx.endpoints ++ object ∷ [] }
    else record ctx { outbounds = ctx.outbounds ++ object ∷ [] }

-- buildSingboxChain, from hop `idx` on
unfoldable pub build_singbox_chain : World → Chaining → ℕ → List Hop → Context → Context
unfolding sing_tag dress_sing
build_singbox_chain w c idx [] ctx = ctx
build_singbox_chain w c idx (ent ∷ ents) ctx =
    let marked = mark (sing_tag w c idx) (c.mark_ingress && is_first idx) ctx in
    let (object, error) = ent.build ent.bridge in
    let rest =
      build_singbox_chain w c (suc idx) ents
        (add_object ent (dress_sing w c idx (not (is_empty ents)) object) marked) in
    if error == "" then rest else record marked { error = marked.error <> error }

abbrev pub is_xhttp : String → Bool
is_xhttp network = network == "xhttp" || network == "splithttp"

abbrev pub xhttp_settings : Fields → Fields
xhttp_settings stream =
    let settings = object_at "xhttpSettings" stream in
    if is_empty_object settings then object_at "splithttpSettings" stream else settings

-- Whether the download leg has a stream configuration of its own.
unfoldable pub splits_download : Fields → Bool
splits_download stream =
    is_xhttp (text_at "network" stream)
    && not (is_none (get_key "downloadSettings" (object_at "extra" (xhttp_settings stream))))

-- bridgeConfig.loopbackProtect
unfoldable pub protect : Fields → Fields
unfolding splits_download
protect object =
    let stream = object_at "streamSettings" object in
    let sockopt = set_key "penetrate" (bool true) (object_at "sockopt" stream) in
    if splits_download stream
    then set_key "streamSettings" (obj (set_key "sockopt" (obj sockopt) stream)) object
    else object

-- bridgeConfig.bindInterface
unfoldable pub bind_to : String → Fields → Fields
unfolding splits_download
bind_to interface object =
    let stream = object_at "streamSettings" object in
    let bound = set_key "interface" (str interface) (object_at "sockopt" stream) in
    let sockopt = if splits_download stream then set_key "penetrate" (bool true) bound else bound in
    set_key "streamSettings" (obj (set_key "sockopt" (obj sockopt) stream)) object

unfoldable pub xray_tag : World → Chaining → ℕ → String
xray_tag w c idx =
    if c.include_proxy && is_first idx then "proxy" else numbered w c.prefix (c.start_suffix + idx)

-- The object of hop `idx`, which is proxied by the next one or by the bridge.
unfoldable pub dress_xray : World → Chaining → Bridge → ℕ → Bool → Fields → Fields
unfolding xray_tag
dress_xray w c b idx more object =
    let tagged = set_key "tag" (str (xray_tag w c idx)) object in
    let protected = if b.loopback_protect then protect tagged else tagged in
    let bound =
      if not (b.bind_interface == "") && not more
      then bind_to b.bind_interface protected
      else protected in
    if (more || b.needed) && (c.link || b.needed)
    then set_key "proxySettings"
        (obj (
          field "tag" (str (numbered w c.prefix (suc (c.start_suffix + idx))))
            (field "transportLayer" (bool true) end)))
        bound
    else bound

-- The socks outbound into the bridge, behind the last hop
abbrev pub socks_outbound : World → Chaining → Bridge → ℕ → Fields
socks_outbound w c b idx = field "tag" (str (numbered w c.prefix (c.start_suffix + idx))) (
    field "protocol" (str "socks") (
      field "settings"
        (obj (
          field "address" (str b.host) (
            field "port" (num b.port) (field "user" (str b.auth) (field "pass" (str b.auth) end)))))
        end))

abbrev pub mark_xray : String → Bool → Context → Context
mark_xray tag here ctx =
    if here then record ctx { xray_ingress_tags = ctx.xray_ingress_tags ++ tag ∷ [] } else ctx

-- buildXrayChain, from hop `idx` on
unfoldable pub build_xray_chain : World → Chaining → Bridge → ℕ → List Hop → Context → Context
unfolding xray_tag dress_xray
build_xray_chain w c b idx [] ctx =
    if b.needed
    then record ctx { xray_outbounds = ctx.xray_outbounds ++ socks_outbound w c b idx ∷ [] }
    else ctx
build_xray_chain w c b idx (ent ∷ ents) ctx =
    let marked = mark_xray (xray_tag w c idx) (is_first idx) ctx in
    let (object, error) = ent.build_xray in
    let rest = build_xray_chain w c b (suc idx) ents (record marked {
      xray_outbounds =
          marked.xray_outbounds ++ dress_xray w c b idx (not (is_empty ents)) object ∷ [];
    }) in
    if error == "" then rest else record marked { error = marked.error <> error }
