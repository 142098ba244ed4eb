-- ===== src/Memory/Life/Taken.antt =====
-- The strings of the capture data: taken by InitCaptureData and InitcaptureLoop, and given back.
use bdremote_ng.Prelude.{
  pos, ltb_ℤ, ◌≡◌, ◌==◌, true, false, Option, none, some, ok, arith, length, refl, ◌∙◌, sym, ap,
  subst,
}
use bdremote_ng.Text.{CString}
use bdremote_ng.Config.{Configuration}
use bdremote_ng.Config.Flags.{IsConsistent}
use bdremote_ng.Capture.Bluetooth.{Bluez, Address}
use bdremote_ng.Memory.{Ptr, null, Heap, Allocator, read, free_val, copy}
use bdremote_ng.Memory.Blocks.{Points, live, copy-Stored, store_new-Stored}
use bdremote_ng.Memory.Settings.{interface_addr, remote_addr, Struct}
use bdremote_ng.Memory.Settings.Agrees.{Agrees}
use bdremote_ng.Memory.Life.{
  Addresses, cleared, destroy_capture_data, set_from, set_interface, init_capture_data,
  write_address, any_interface, parse_address, own_address,
}
use bdremote_ng.Memory.Goes.{Goes, goes, Goes-bind}
use bdremote_ng.Memory.Life.Holding.{
  Holding, Agrees-Holding, store_bt, store_dest, free_bt, free_dest,
}

-- The text of the interface's address: that of the command line, or of the first adapter.
abbrev pub own_text : Bluez → Option CString → Option CString
own_text bt (some s) = some s
own_text bt none = elim bt.first [ none ↦ none | some address ↦ bt.ba2str address ]

-- `ba2str` writes 17 bytes and a NUL.
abbrev pub WritesAddress : Bluez → Type 0
WritesAddress bt = (address : Address) (s : CString) → bt.ba2str address ≡ some s → length s ≡ 17

set_from-read :
    (a : Allocator) (h : Heap) (source : Ptr) (text : CString)
    → read h source ≡ ok text
    → set_from a h null source ≡ copy a h text
unfolding set_from free_val
set_from-read a h source text e = rw e refl

module _ {a : Allocator} {h0 : Heap} {c : Configuration} {s : Struct} where
  set_interface-Goes :
      (h : Heap) (o : Option CString)
      → c.interface_addr ≡ o
      → IsConsistent c
      → Holding h0 c s null null h
      → Goes a
          (λ (p, h'). Holding h0 c s p null h' × Points h' p c.interface_addr)
          (set_interface a s h)
  unfolding set_interface
  set_interface-Goes h none given v held =
      let flag : s.plain.interface_addr_set ≡ false =
        ap (λ p. p.interface_addr_set) held.plain ∙ v.interface_agrees.1 given in
      simp flag (goes (held, subst (Points h null) (sym given) refl))
  set_interface-Goes h (some text) given v held =
      let flagged : c.interface_addr_set ≡ true = ground (arith, v.interface_agrees) in
      let flag : s.plain.interface_addr_set ≡ true =
        ap (λ p. p.interface_addr_set) held.plain ∙ flagged in
      let there : Points h (s.string interface_addr) (some text) =
        subst (Points h (s.string interface_addr)) given (held.strings interface_addr) in
      simp (flag, set_from-read a h (s.string interface_addr) text there.1)
        (subst (λ o. Goes a (λ (p, h'). Holding h0 c s p null h' × Points h' p o) (copy a h text))
          (sym given) (store_bt held (copy-Stored a h text _ (λ q. omega (arith, held.owned q)))))

  set_dest-Goes :
      (h : Heap) (bt : Ptr) (text : CString)
      → c.remote_addr ≡ some text
      → Holding h0 c s bt null h
      → Goes a
          (λ (p, h').
            Holding h0 c s bt p h' × ((o : Option CString) → Points h bt o → Points h' bt o))
          (set_from a h null (s.string remote_addr))
  set_dest-Goes h bt text given held =
      let there : Points h (s.string remote_addr) (some text) =
        subst (Points h (s.string remote_addr)) given (held.strings remote_addr) in
      rw (set_from-read a h (s.string remote_addr) text there.1)
        (store_dest held (copy-Stored a h text _ (λ q. omega (arith, held.owned q))))

  pub init_capture_data-Goes :
      (h : Heap) (text : CString)
      → c.remote_addr ≡ some text
      → IsConsistent c
      → ltb_ℤ (pos 0) c.disconnect_timeout ≡ true
      → Holding h0 c s null null h
      → Goes a
          (λ (cd, h').
            Holding h0 c s cd.bt_dev_address cd.dest_address h'
            × Points h' cd.bt_dev_address c.interface_addr)
          (init_capture_data a cleared (s, h))
  unfolding init_capture_data free_val
  init_capture_data-Goes h text given v positive held =
      let there : Points h (s.string remote_addr) (some text) =
        subst (Points h (s.string remote_addr)) given (held.strings remote_addr) in
      let known : (s.string remote_addr == null) ≡ false = ground arith in
      let timeout : ltb_ℤ (pos 0) s.plain.disconnect_timeout ≡ true =
        ap (λ p. ltb_ℤ (pos 0) p.disconnect_timeout) held.plain ∙ positive in
      simp (known, timeout)
        (Goes-bind _ (set_interface-Goes h c.interface_addr refl v held) (λ (bt, h2) (held2, at_bt).
          Goes-bind _ (set_dest-Goes h2 bt text given held2)
            (λ (dest, h4) (held4, still). goes (held4, still c.interface_addr at_bt))))

  parse_address-Goes :
      (bt : Bluez) (cd : Addresses) (p : Ptr) (h : Heap) (text : CString) (address : Address)
      → bt.str2ba text ≡ some address
      → read h p ≡ ok text
      → Holding h0 c s p cd.dest_address h
      → Goes a
          (λ (cd', h'). Holding h0 c s cd'.bt_dev_address cd'.dest_address h')
          (parse_address bt cd (p, h))
  unfolding parse_address
  parse_address-Goes bt cd p h text address parsed e held = rw (e, parsed) (goes held)

  any_interface-Goes :
      (bt : Bluez) (dest : Ptr) (h : Heap) (first : Option Address) (text : CString)
      → WritesAddress bt
      → (elim first [ none ↦ none | some address ↦ bt.ba2str address ]) ≡ some text
      → Holding h0 c s null dest h
      → Goes a
          (λ (p, h'). Holding h0 c s p dest h' × Points h' p (some text))
          (any_interface a bt h first)
  unfolding any_interface write_address
  any_interface-Goes bt dest h none text w e held = cc
  any_interface-Goes bt dest h (some first) text w e held = rw e (
      store_bt held (
        store_new-Stored a h text 127 _ (omega (arith, w first text e))
          (λ q. omega (arith, held.owned q))))

  pub own_address-Goes :
      (bt : Bluez) (cd : Addresses) (h : Heap) (o : Option CString) (text : CString)
      (address : Address)
      → WritesAddress bt
      → own_text bt o ≡ some text
      → bt.str2ba text ≡ some address
      → Points h cd.bt_dev_address o
      → Holding h0 c s cd.bt_dev_address cd.dest_address h
      → Goes a
          (λ (cd', h'). Holding h0 c s cd'.bt_dev_address cd'.dest_address h')
          (own_address a bt cd h)
  unfolding own_address
  own_address-Goes bt cd h (some given) text address w own parsed (ne, e) held =
      let known : (cd.bt_dev_address == null) ≡ false = ground arith in
      let same : given ≡ text = ground arith in
      simp known
        (parse_address-Goes bt cd cd.bt_dev_address h text address parsed (e ∙ ap ok same) held)
  own_address-Goes bt cd h none text address w own parsed unset held =
      let unknown : (cd.bt_dev_address == null) ≡ true = ground arith in
      simp unknown (
        Goes-bind _
          (any_interface-Goes bt cd.dest_address h bt.first text w own
            (subst (λ p. Holding h0 c s p cd.dest_address h) unset held))
          (λ (p, h1) (held1, (ne, e)). parse_address-Goes bt cd p h1 text address parsed e held1))

pub destroy_capture_data-Goes :
    {h0 : Heap} {c : Configuration} {s : Struct} (cd : Addresses) (h : Heap)
    → Holding h0 c s cd.bt_dev_address cd.dest_address h
    → (h' : Heap) × (destroy_capture_data cd h
        ≡ ok (record cd { bt_dev_address = null; dest_address = null }, h'))
      × Agrees (live h0) h0 c (s, h')
unfolding destroy_capture_data
destroy_capture_data-Goes cd h held =
    let (h1, e1, held1) = free_bt held in
    let (h2, e2, held2) = free_dest held1 in (h2, rw (e1, e2) refl, Agrees-Holding held2)
