-- ===== src/NetworkProgrammer/EveryMethod.antt =====
-- Every method of the network programmer, made of the steps that keep a property of its state.
use programmer.Prelude.{ℕ, List, some, u16, arith}
use programmer.Exceptions.{Result, ok, throws, fault}
use programmer.DeviceDescriptor.{find}
use programmer.Protocol.Op
use programmer.NetworkProgrammer.{
  NetworkProgrammer, Action, resume, communicate, select_operation, prepare_payload,
  check_connection, get_payload, get_struct, end_broadcast, set_address, fill_write,
  process_discover, discover_device, configure_device, connect_device, read, write, erase, reset,
  checksum, read_info,
}
use programmer.NetworkProgrammer.Keeps.{IsKept, Leads, resume-Leads, communicate-Leads}

module _ (P Q : NetworkProgrammer → Type 0) (Data : List ℕ → Type 0) (k : IsKept P Q Data) where
  communicates : Leads Q Q communicate
  communicates = communicate-Leads P Q Data k

  end_broadcast-kept :
      (p : NetworkProgrammer) (r : Result (Unit {0})) → P p → P (end_broadcast (p, r)).0
  unfolding end_broadcast
  end_broadcast-kept p (ok a) h = k.answers p.rx_address p h
  end_broadcast-kept p (throws e) h = k.ends p h
  end_broadcast-kept p (fault f) h = h

  same : (p : NetworkProgrammer) → P p → P p
  same p h = h

  process_discover-Leads : (op : ℕ) → Leads Q P (process_discover op)
  unfolding process_discover get_struct
  process_discover-Leads op p h =
      let r = end_broadcast (communicate p) in
      resume-Leads P P r.0 r.1 _ same
        (end_broadcast-kept (communicate p).0 (communicate p).1
          (k.weaken (communicate p).0 (communicates p h)))
        (λ a q i. resume-Leads P P q (get_struct 8 op q).1 _ same i (λ info q' i'.
          resume-Leads P P _ (find (read_info info).device_id) _ same
            (k.informs (read_info info) q' i') (λ d q'' i''. k.finds (some d) q'' i'')))

  -- A method that checks the connection, prepares a request and communicates.
  checked :
      {A : Type 0} (p : NetworkProgrammer) (next : Unit {0} → Action A)
      → P p
      → ((a : Unit {0}) → Leads P P (next a))
      → P (resume p (check_connection p).1 next).0
  checked p next h i = resume-Leads P P p (check_connection p).1 next same h i

  read-Leads : (address size : ℕ) → Leads P P (read address size)
  unfolding read check_connection get_payload
  read-Leads address size p h = checked p _ h (λ a q i.
      let q' = select_operation Op.read address (u16 size) q in
      resume-Leads P P (communicate q').0 (communicate q').1 _ same
        (k.weaken (communicate q').0
          (communicates q' (k.select Op.read address (u16 size) q (omega arith) i)))
        (λ b q'' i''. i''))

  write-Leads : (address : ℕ) (buffer : List ℕ) → Data buffer → Leads P P (write address buffer)
  unfolding write check_connection
  write-Leads address buffer d p h = checked p _ h (λ a q i.
      let q' = prepare_payload Op.write 68 q in
      resume-Leads Q P (fill_write address buffer q').0 (fill_write address buffer q').1 _ k.weaken
        (k.fill address buffer q' d (k.prepare Op.write 68 q (omega arith) (omega arith) i))
        (λ b q'' i''. k.weaken (communicate q'').0 (communicates q'' i'')))

  erase-Leads : (address : ℕ) → Leads P P (erase address)
  unfolding erase check_connection
  erase-Leads address p h = checked p _ h (λ a q i.
      k.weaken (communicate (select_operation Op.erase address 0 q)).0
        (communicates _ (k.select Op.erase address 0 q (omega arith) i)))

  reset-Leads : Leads P P reset
  unfolding reset check_connection
  reset-Leads p h = checked p _ h (λ a q i.
      k.weaken (communicate (select_operation Op.reset 0 0 q)).0
        (communicates _ (k.select Op.reset 0 0 q (omega arith) i)))

  checksum-Leads : (address size : ℕ) → Leads P P (checksum address size)
  unfolding checksum get_struct
  checksum-Leads address size p h =
      let q = select_operation Op.checksum address (u16 size) p in
      resume-Leads P P (communicate q).0 (communicate q).1 _ same
        (k.weaken (communicate q).0
          (communicates q (k.select Op.checksum address (u16 size) p (omega arith) h)))
        (λ a q' i. resume-Leads P P q' (get_struct 4 Op.checksum q').1 _ same i (λ r q'' i''. i''))

  discover_device-Leads : (port : ℕ) → Leads P P (discover_device port)
  unfolding discover_device
  discover_device-Leads port p h = process_discover-Leads Op.discover _ (
      k.select Op.discover 0 0 (set_address 0xFFFFFFFF port p) (omega arith)
        (k.address 0xFFFFFFFF port p h))

  connect_device-Leads : (ip port : ℕ) → Leads P P (connect_device ip port)
  unfolding connect_device
  connect_device-Leads ip port p h =
      process_discover-Leads Op.discover _
        (k.select Op.discover 0 0 (set_address ip port p) (omega arith) (k.address ip port p h))

  configure_device-Leads : (ip port : ℕ) → Leads P P (configure_device ip port)
  unfolding configure_device
  configure_device-Leads ip port p h =
      let q = set_address 0xFFFFFFFF port p in
      process_discover-Leads Op.net_config _ (
        k.config ip (prepare_payload Op.net_config 10 q) (
          k.prepare Op.net_config 10 q (omega arith) (omega arith) (k.address 0xFFFFFFFF port p h)))

  -- What the steps keep is kept by every method.
  pub methods-kept :
      (address size ip port : ℕ) (buffer : List ℕ) (p : NetworkProgrammer)
      → Data buffer
      → P p
      → P (read address size p).0
        × P (write address buffer p).0
        × P (erase address p).0
        × P (reset p).0
        × P (checksum address size p).0
        × P (discover_device port p).0
        × P (connect_device ip port p).0
        × P (configure_device ip port p).0
  methods-kept address size ip port buffer p d h = (
    read-Leads address size p h,
    write-Leads address buffer d p h,
    erase-Leads address p h,
    reset-Leads p h,
    checksum-Leads address size p h,
    discover_device-Leads port p h,
    connect_device-Leads ip port p h,
    configure_device-Leads ip port p h,
  )
