-- ===== src/SimplePdrv/Setup.antt =====
-- simple_probe, simple_remove, simple_init and simple_exit: what they claim and give back.
use testings.Prelude.{◌≡◌, ◌⊎◌, Bool, true, false, not, arith, if◌then◌else◌}
use testings.Prelude.Int.{ℤ, is_nonzero}
use testings.Kernel.Errno.{success, enomem}

-- The number of the device, the character device, the class, the device node and the attribute.
pub record Claimed : Type 0 where
  pub region : Bool
  pub cdev : Bool
  pub cls : Bool
  pub node : Bool
  pub attribute : Bool

abbrev pub nothing : Claimed
nothing = record { region = false; cdev = false; cls = false; node = false; attribute = false }

abbrev pub everything : Claimed
everything = record { region = true; cdev = true; cls = true; node = true; attribute = true }

-- What each call returns, in the order of the calls; those that return a pointer, 0 or what IS_ERR
-- finds.
pub record Answers : Type 0 where
  pub kzalloc : Bool
  pub alloc_region : ℤ
  pub cdev_add : ℤ
  pub class_create : ℤ
  pub device_create : ℤ
  pub create_file : ℤ

-- The labels of simple_probe, each of which falls through to the next.
abbrev err_unregister_chrdev : Claimed → Claimed
err_unregister_chrdev c = record c { region = false }

abbrev err_cdev_del : Claimed → Claimed
err_cdev_del c = err_unregister_chrdev (record c { cdev = false })

abbrev err_class_destroy : Claimed → Claimed
err_class_destroy c = err_cdev_del (record c { cls = false })

abbrev err_device_destroy : Claimed → Claimed
err_device_destroy c = err_class_destroy (record c { node = false })

module _ (A : Answers) where
  -- from class_create on
  unfoldable pub probe_class : Claimed → ℤ × Claimed
  probe_class c =
      let with_class = record c { cls = true } in
      let with_node = record with_class { node = true } in
      if is_nonzero A.class_create
      then (A.class_create, err_cdev_del c)
      else if is_nonzero A.device_create
      then (A.device_create, err_class_destroy with_class)
      else if is_nonzero A.create_file
      then (A.create_file, err_device_destroy with_node)
      else (success, record with_node { attribute = true })

  unfoldable pub simple_probe : Claimed → ℤ × Claimed
  unfolding probe_class
  simple_probe c =
      let with_region = record c { region = true } in
      if not A.kzalloc
      then (enomem, c)
      else if is_nonzero A.alloc_region
      then (A.alloc_region, c)
      else if is_nonzero A.cdev_add
      then (A.cdev_add, err_unregister_chrdev with_region)
      else probe_class (record with_region { cdev = true })

unfoldable pub simple_remove : Claimed → Claimed
simple_remove c = record c {
  attribute = false;
  node = false;
  cls = false;
  cdev = false;
  region = false;
}

-- simple_probe returns 0 and has claimed everything, which simple_remove then gives back, or returns an
-- error and has claimed nothing.
pub simple_probe_lem :
    (A : Answers)
    → (simple_probe A nothing ≡ (success, everything))
        × (simple_remove (simple_probe A nothing).1 ≡ nothing)
      ⊎ (is_nonzero (simple_probe A nothing).0 ≡ true) × ((simple_probe A nothing).1 ≡ nothing)
unfolding simple_probe simple_remove
simple_probe_lem A = ground arith

-- The platform device and the driver.
pub record Registered : Type 0 where
  pub device : Bool
  pub driver : Bool

abbrev pub unloaded : Registered
unloaded = record { device = false; driver = false }

-- The arguments are what platform_device_register_simple, 0 or what IS_ERR finds, and
-- platform_driver_register return.
unfoldable pub simple_init : ℤ → ℤ → Registered → ℤ × Registered
simple_init device driver r =
    let with_device = record r { device = true } in
    if is_nonzero device
    then (device, r)
    else if is_nonzero driver
    then (driver, record with_device { device = false })
    else (success, record with_device { driver = true })

unfoldable pub simple_exit : Registered → Registered
simple_exit r = record r { driver = false; device = false }

-- simple_init returns 0 and has registered both, which simple_exit takes back, or returns an error and
-- has registered nothing.
simple_init_lem :
    (device driver : ℤ)
    → (simple_init device driver unloaded ≡ (success, record { device = true; driver = true }))
        × (simple_exit (simple_init device driver unloaded).1 ≡ unloaded)
      ⊎ (is_nonzero (simple_init device driver unloaded).0 ≡ true)
        × ((simple_init device driver unloaded).1 ≡ unloaded)
unfolding simple_init simple_exit
simple_init_lem device driver = ground arith
