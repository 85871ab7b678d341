-- ===== src/Gateway/Discovery/MetaTools/Calling.antt =====
-- Which tool a call by name reaches (internal/gateway/discovery.go, `metaCall`).
use rusty_gateway.Common.{
  ◌≡◌, refl, true, false, Option, none, some, List, [], ◌∷◌, map, All, arith, any, In, inl, inr,
  In-append_cases, ap, sym, ap₂, ◌∙◌, All-lookup,
}
use rusty_gateway.Common.Text.{Text, text_eq, text_eq_iff, is_empty}
use rusty_gateway.Common.Text.Search.{cut}
use rusty_gateway.Gateway.Names.{separator, prefixed, upstream_id}
use rusty_gateway.Gateway.Names.Cutting.{is_plain, cut-prefixed, cut-prefixed_unplain}
use rusty_gateway.Gateway.Discovery.{
  Namespace, Tool, ToolInfo, infos_of, info_of, infos_from, tool_infos,
}
use rusty_gateway.Gateway.Discovery.MetaTools.{
  ok, Target, CallArgs, or_empty_object, has_tool, resolve_tool, resolve, resolve_cut, meta_call,
}

module _ (catalog : Text → Option (List Tool)) (ns : Namespace) where
  -- call_tool with the prefixed name of a tool does exactly what the server's own call tool does
  -- with the tool's bare name, errors included, if the server's name is not empty, has no "__" in
  -- it and does not end in "_".
  pub meta_call-prefixed :
      (srv tool args : Text)
      → is_plain srv ≡ true
      → is_empty srv ≡ false
      → meta_call catalog ns [] (some (record { name = prefixed srv tool; arguments = args }))
        ≡ meta_call catalog ns srv (some (record { name = tool; arguments = args }))
  unfolding meta_call
  meta_call-prefixed srv tool args plain named = rw (named, cut-prefixed srv tool plain)

  -- The target of a call has the server's name that was asked for.
  resolve-server :
      (srv tool args : Text) (t : Target)
      → resolve catalog ns srv tool args ≡ ok t
      → (t.server ≡ srv) × (t.tool ≡ tool)
  unfolding resolve resolve_tool
  resolve-server srv tool args t h = ground arith

  cut_target :
      (ca : CallArgs) (o : Option (Text × Text)) (t : Target)
      → resolve_cut catalog ns ca o ≡ ok t
      → o ≡ some (t.server, t.tool)
  unfolding resolve_cut
  cut_target ca none t h = cc
  cut_target ca (some (srv, tool)) t h =
      let (server, name) = resolve-server srv tool ca.arguments t h in rw (server, name)

  -- A call by the prefixed name of a tool never reaches that tool of that server if the server's
  -- name has "__" in it or ends in "_".
  pub meta_call-unplain :
      (srv tool args : Text) (t : Target)
      → is_plain srv ≡ false
      → meta_call catalog ns [] (some (record { name = prefixed srv tool; arguments = args }))
        ≡ ok t
      → ¬ ((t.server ≡ srv) × (t.tool ≡ tool))
  unfolding meta_call
  meta_call-unplain srv tool args t unplain h same = cut-prefixed_unplain srv tool unplain (
      cut_target _ (cut separator (prefixed srv tool)) t h
      ∙ ap some (ap₂ (λ (a b : Text). let p : Text × Text = (a, b) in p) same.0 same.1))

  -- The tool behind an entry of the catalog.
  record Listing (info : ToolInfo) (servers : List Text) : Type 0 where
    pub server : Text
    pub tools : List Tool
    pub tool : Tool
    pub configured : In server servers
    pub served : catalog (upstream_id ns.name server) ≡ some tools
    pub has : In tool tools
    pub described : info ≡ info_of server tool

  In-map_info :
      (srv : Text) (info : ToolInfo) (tools : List Tool)
      → In info (map (info_of srv) tools)
      → (t : Tool) × In t tools × (info ≡ info_of srv t)
  In-map_info srv info [] h = absurd h
  In-map_info srv info (t ∷ tools) (inl e) = (t, inl refl, sym e)
  In-map_info srv info (t ∷ tools) (inr h) =
      let (u, i, e) = In-map_info srv info tools h in (u, inr i, e)

  infos_of-Listing :
      (srv : Text) (info : ToolInfo) (servers : List Text) (o : Option (List Tool))
      → catalog (upstream_id ns.name srv) ≡ o
      → In info (infos_of srv o)
      → Listing info (srv ∷ servers)
  unfolding infos_of
  infos_of-Listing srv info servers none e h = absurd h
  infos_of-Listing srv info servers (some tools) e h =
      let (t, i, d) = In-map_info srv info tools h in
      record {
        server = srv;
        tools = tools;
        tool = t;
        configured = inl refl;
        served = e;
        has = i;
        described = d;
      }

  Listing-cons :
      (srv : Text) (info : ToolInfo) (servers : List Text)
      → Listing info servers
      → Listing info (srv ∷ servers)
  Listing-cons srv info servers l = record {
    server = l.server;
    tools = l.tools;
    tool = l.tool;
    configured = inr l.configured;
    served = l.served;
    has = l.has;
    described = l.described;
  }

  infos_from-Listing :
      (info : ToolInfo) (servers : List Text)
      → In info (infos_from catalog ns.name [] servers)
      → Listing info servers
  unfolding infos_from
  infos_from-Listing info [] h = absurd h
  infos_from-Listing info (srv ∷ servers) h =
      elim (In-append_cases info (infos_of srv (catalog (upstream_id ns.name srv)))
        (infos_from catalog ns.name [] servers) h) [
          | inl here ↦
              infos_of-Listing srv info servers (catalog (upstream_id ns.name srv)) refl here
          | inr later ↦ Listing-cons srv info servers (infos_from-Listing info servers later)
        ]

  any_server :
      (srv : Text) (servers : List Text) → In srv servers → any (λ s. text_eq s srv) servers ≡ true
  any_server srv [] h = absurd h
  any_server srv (s ∷ servers) (inl e) = ground (arith, text_eq_iff s srv)
  any_server srv (s ∷ servers) (inr h) = ground (arith, any_server srv servers h)

  any_tool : (tool : Tool) (tools : List Tool) → In tool tools → has_tool tool.name tools ≡ true
  unfolding has_tool
  any_tool tool [] h = absurd h
  any_tool tool (t ∷ tools) (inl e) =
      rw ((text_eq_iff t.name tool.name).1 (ap (λ (u : Tool). u.name) e))
  any_tool tool (t ∷ tools) (inr h) = ground (arith, any_tool tool tools h)

  abbrev target_of : Text → Tool → Text → Target
  target_of srv tool args = record {
    server = srv;
    tool = tool.name;
    upstream = upstream_id ns.name srv;
    arguments = or_empty_object args;
  }

  resolve-Listing :
      (info : ToolInfo) (args : Text) (l : Listing info ns.servers)
      → resolve catalog ns l.server l.tool.name args ≡ ok (target_of l.server l.tool args)
  unfolding resolve resolve_tool
  resolve-Listing info args l =
      rw (any_server l.server ns.servers l.configured, l.served, any_tool l.tool l.tools l.has)

  -- If no server of the namespace has "__" in its name or "_" at its end, call_tool reaches every
  -- tool of the catalog by its listed name: the call goes to the listed server's upstream, and to
  -- the tool whose prefixed name was listed.
  pub meta_call-listed :
      (info : ToolInfo) (args : Text)
      → All (λ s. is_plain s ≡ true) ns.servers
      → In info (tool_infos catalog ns [])
      → (t : Target) × (meta_call catalog ns []
            (some (record { name = info.name; arguments = args }))
          ≡ ok t)
        × (t.server ≡ info.server)
        × (prefixed t.server t.tool ≡ info.name)
        × (t.upstream ≡ upstream_id ns.name info.server)
  unfolding meta_call tool_infos info_of
  meta_call-listed info args plain h =
      let l : Listing info ns.servers = infos_from-Listing info ns.servers h in
      let name : info.name ≡ prefixed l.server l.tool.name =
        ap (λ (i : ToolInfo). i.name) l.described in
      let server : info.server ≡ l.server = ap (λ (i : ToolInfo). i.server) l.described in
      let cut_name : cut separator info.name ≡ some (l.server, l.tool.name) = rw name (
        cut-prefixed l.server l.tool.name
          (All-lookup (λ s. is_plain s ≡ true) l.server ns.servers plain l.configured)) in
      (
        target_of l.server l.tool args,
        rw (cut_name, resolve_cut) (resolve-Listing info args l),
        sym server,
        sym name,
        rw server,
      )
