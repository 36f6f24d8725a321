-- ===== src/Ingest/Devices.antt =====
-- was/app/routers/ingest.py: devices that register and report again.
use soltrace.Base.{
  ℕ, ◌≡◌, refl, true, false, Option, none, some, List, [], ◌∷◌, ◌++◌, length, Bool-cases,
  Option-cases, inl, inr, ap, ◌∙◌, sym, arith,
}
use soltrace.Auth.Text.{text_eq_sound, Text, text_eq, text_eq_refl}
use soltrace.Ingest.{
  Device, DeviceTable, Registration, Heartbeat, beat, find_device, put_device, refreshed,
  new_device, register_device, beaten, heartbeat,
}

find_miss :
    (key : Text) (x : Device) (xs : List Device)
    → text_eq x.device_key key ≡ false
    → find_device key (x ∷ xs) ≡ find_device key xs
unfolding find_device
find_miss key x xs h = rw h refl

find_hit :
    (key : Text) (x : Device) (xs : List Device)
    → text_eq x.device_key key ≡ true
    → find_device key (x ∷ xs) ≡ some x
unfolding find_device
find_hit key x xs h = rw h refl

abbrev device_or : Device → Option Device → Device
device_or d none = d
device_or d (some e) = e

found_key :
    (key : Text) (ds : List Device) (x : Device) → find_device key ds ≡ some x → x.device_key ≡ key
found_key key [] x h = unfold find_device in ground arith
found_key key (d ∷ ds) x h = elim (Bool-cases (text_eq d.device_key key)) [
  | inr e ↦ found_key key ds x (sym (find_miss key d ds e) ∙ h)
  | inl e ↦
      let same : d ≡ x = ap (device_or x) (sym (find_hit key d ds e) ∙ h) in
      ap (λ (y : Device). y.device_key) (sym same) ∙ text_eq_sound d.device_key key e
]

find_put :
    (key : Text) (d x : Device) (ds : List Device)
    → find_device key ds ≡ some x
    → d.device_key ≡ key
    → find_device key (put_device d ds) ≡ some d
unfolding put_device
find_put key d x [] h k = unfold find_device in ground arith
find_put key d x (y ∷ ys) h k = elim (Bool-cases (text_eq y.device_key key)) [
  | inl e ↦
      let e' : text_eq y.device_key d.device_key ≡ true = rw k e in
      let own : text_eq d.device_key key ≡ true = rw k (text_eq_refl key) in
      rw (e', put_device) (find_hit key d ys own)
  | inr e ↦
      let e' : text_eq y.device_key d.device_key ≡ false = rw k e in
      rw (e', put_device)
        (find_miss key y (put_device d ys) e
          ∙ find_put key d x ys (sym (find_miss key y ys e) ∙ h) k)
]

length-put_device : (d : Device) (ds : List Device) → length (put_device d ds) ≡ length ds
unfolding put_device
length-put_device d [] = refl
length-put_device d (x ∷ xs) = ground (arith, length-put_device d xs)

find_append :
    (key : Text) (d : Device) (ds : List Device)
    → find_device key ds ≡ none
    → text_eq d.device_key key ≡ true
    → find_device key (ds ++ d ∷ []) ≡ some d
find_append key d [] h k = find_hit key d [] k
find_append key d (x ∷ xs) h k = elim (Bool-cases (text_eq x.device_key key)) [
  | inl e ↦ unfold find_device in ground arith
  | inr e ↦
      find_miss key x (xs ++ d ∷ []) e ∙ find_append key d xs (sym (find_miss key x xs e) ∙ h) k
]

-- A device that registers again under its key gets the same id, is not new, and adds no row.
pub register_device_again :
    (now later : ℕ) (req again : Registration) (table : DeviceTable)
    → again.device_key ≡ req.device_key
    → let (first, table') = register_device now req table in
      let (second, table'') = register_device later again table' in
      (second.device_id ≡ first.device_id)
      × (second.is_new ≡ false)
      × (length table''.devices ≡ length table'.devices)
      × (table''.next_id ≡ table'.next_id)
unfolding register_device
register_device_again now later req again table k =
    elim (Option-cases (find_device req.device_key table.devices)) [
      | inl e ↦
          let d = new_device now table.next_id req in
          let found = find_append req.device_key d table.devices e (text_eq_refl req.device_key) in
          rw (k, e)
            (rw found (
              refl,
              refl,
              length-put_device (refreshed later again d) (table.devices ++ d ∷ []),
              refl,
            ))
      | inr (x, e) ↦
          let d = refreshed now req x in
          let found =
            find_put req.device_key d x table.devices e
              (found_key req.device_key table.devices x e) in
          rw (k, e)
            (rw found (
              refl,
              refl,
              length-put_device (refreshed later again d) (put_device d table.devices),
              refl,
            ))
    ]

-- An update that was requested is told once: after a heartbeat of a device that is known, the
-- next one is told of none.
pub heartbeat_once :
    (now later : ℕ) (req again : Heartbeat) (table : DeviceTable) (d : Device)
    → again.device_key ≡ req.device_key
    → find_device req.device_key table.devices ≡ some d
    → ((heartbeat now req table).0 ≡ beat d.status d.update_requested)
      × ((heartbeat later again (heartbeat now req table).1).0 ≡ beat d.status false)
unfolding heartbeat
heartbeat_once now later req again table d k e =
    let found =
      find_put req.device_key (beaten now req d) d table.devices e
        (found_key req.device_key table.devices d e) in
    (rw e refl, rw (k, e) (rw found refl))
