-- ===== src/Netmesh/Options/Laws.antt =====
-- What the rest of the manager may take for granted about its options.
use clippy.Base.{ℕ, ◌≡◌, ◌≢◌, ◌⊎◌, refl, ap, sym, subst, true, false, [], Result, ok, arith}
use clippy.Base.Bytes.{Bytes, codes, bytes_beq, bytes_beq_iff}
use clippy.Base.Int.{ℤ, pos, is_nonpos, is_neg, ltb_ℤ}
use clippy.Netmesh.Options.{
  Options, OptionsError, fill_defaults, fill_sizes, or_text, or_number, or_source, with_defaults,
}

pub record IsResolved (o : Options) : Type 0 where
  pub path : o.web_socket_path ≢ []
  pub service : o.service_name ≢ []
  pub heartbeat : is_nonpos o.heartbeat_interval ≡ false
  pub pong : is_nonpos o.pong_timeout ≡ false
  pub stale : is_nonpos o.peer_stale_after ≡ false
  pub low : is_nonpos o.reconnect_min_backoff ≡ false
  pub ordered : ltb_ℤ o.reconnect_max_backoff o.reconnect_min_backoff ≡ false
  pub frame : is_nonpos o.max_frame_bytes ≡ false
  pub queue : is_nonpos o.send_queue_size ≡ false
  pub port : is_neg o.port ≡ false

or_number-pos : (x : ℤ) (d : ℕ) → is_nonpos (pos d) ≡ false → is_nonpos (or_number x d) ≡ false
or_number-pos x d h = ground arith

or_text-ne : (x d : Bytes) → d ≢ [] → or_text x d ≢ []
or_text-ne x d h e = ground (arith, bytes_beq_iff x [])

module _ (new_node_id hostname : Result OptionsError Bytes) (opts o : Options)
    (h : with_defaults new_node_id hostname opts ≡ ok o) where
  abbrev pub sized : Options
  sized = fill_sizes (fill_defaults opts)

  pub o_is : o ≡ record sized { node_id = o.node_id; name = o.name }
  unfolding with_defaults
  o_is = ground arith

  source_is :
      (or_source sized.node_id new_node_id ≡ ok o.node_id)
      × (or_source sized.name hostname ≡ ok o.name)
  unfolding with_defaults
  source_is = ground arith

  order_is :
      ltb_ℤ (fill_defaults opts).reconnect_max_backoff (fill_defaults opts).reconnect_min_backoff
      ≡ false
  unfolding with_defaults
  order_is = ground arith

  port_is : is_neg sized.port ≡ false
  unfolding with_defaults
  port_is = ground arith

  kept_text : (bytes_beq opts.node_id [] ≡ true) ⊎ (o.node_id ≡ opts.node_id)
  unfolding fill_defaults fill_sizes
  kept_text = ground (arith, source_is.0)

  kept_name : (bytes_beq opts.name [] ≡ true) ⊎ (o.name ≡ opts.name)
  unfolding fill_defaults fill_sizes
  kept_name = ground (arith, source_is.1)

  resolved : IsResolved o
  unfolding fill_defaults fill_sizes
  resolved = subst IsResolved (sym o_is) (record {
    path = or_text-ne opts.web_socket_path (codes "/ws") (λ e. cc);
    service = or_text-ne opts.service_name (codes "_clippy._tcp") (λ e. cc);
    heartbeat = or_number-pos opts.heartbeat_interval _ refl;
    pong = or_number-pos opts.pong_timeout _ refl;
    stale = or_number-pos opts.peer_stale_after _ refl;
    low = or_number-pos opts.reconnect_min_backoff _ refl;
    ordered = order_is;
    frame = or_number-pos opts.max_frame_bytes _ refl;
    queue = or_number-pos opts.send_queue_size _ refl;
    port = port_is;
  })

  -- Options that `withDefaults` accepts have a service name and a path, positive intervals, sizes
  -- and backoff bounds, the bounds in order, and a port that is not negative; the listen address
  -- and the port are the given ones, and so are an identifier and a name that are not empty and
  -- a frame limit and a queue size that are positive.
  pub with_defaults-IsResolved :
      IsResolved o
      × (o.listen_addr ≡ opts.listen_addr)
      × (o.port ≡ opts.port)
      × ((bytes_beq opts.node_id [] ≡ true) ⊎ (o.node_id ≡ opts.node_id))
      × ((bytes_beq opts.name [] ≡ true) ⊎ (o.name ≡ opts.name))
      × ((is_nonpos opts.max_frame_bytes ≡ true) ⊎ (o.max_frame_bytes ≡ opts.max_frame_bytes))
      × ((is_nonpos opts.send_queue_size ≡ true) ⊎ (o.send_queue_size ≡ opts.send_queue_size))
  unfolding fill_defaults fill_sizes
  with_defaults-IsResolved = (
    resolved,
    ap (λ x. x.listen_addr) o_is,
    ap (λ x. x.port) o_is,
    kept_text,
    kept_name,
    ground (arith, ap (λ x. x.max_frame_bytes) o_is),
    ground (arith, ap (λ x. x.send_queue_size) o_is),
  )
