-- ===== src/Errors/Mapping.antt =====
-- What `errno_to_exception` promises its callers, whatever the errno and the call site.
use anyserial.Base.{String, Option, some, ◌≡◌, ◌↔◌, ◌⊎◌, refl, arith}
use anyserial.Errors.{Errno, SerialClass, Exn, Context, class_of_errno, errno_to_exception}

-- When each class is picked, with no reference to the order of the tests.
pub record Classified (err : Option Errno) (context : Context) (c : SerialClass) : Type 0 where
  pub not_found : (c ≡ SerialClass.port_not_found) ↔ (
      (context ≡ Context.opening)
      × ((err ≡ some Errno.enoent) ⊎ (err ≡ some Errno.enodev) ⊎ (err ≡ some Errno.enxio)))
  pub busy :
      (c ≡ SerialClass.port_busy)
      ↔ ((context ≡ Context.lock) ⊎ (err ≡ some Errno.ebusy) ⊎ (err ≡ some Errno.eacces))
  pub unsupported :
      (c ≡ SerialClass.unsupported_feature)
      ↔ ((context ≡ Context.ioctl) × ((err ≡ some Errno.einval) ⊎ (err ≡ some Errno.enotty)))
  pub gone :
      (c ≡ SerialClass.serial_disconnected)
      ↔ ((context ≡ Context.io) × ((err ≡ some Errno.eio) ⊎ (err ≡ some Errno.enxio)))

-- The class of the raised error is exactly the documented one: PortNotFoundError for ENOENT,
-- ENODEV or ENXIO in an open; PortBusyError for any failure of a lock, and for EBUSY or EACCES
-- anywhere; UnsupportedFeatureError for EINVAL or ENOTTY in an ioctl; SerialDisconnectedError for
-- EIO or ENXIO in a read or write.
pub class_of_errno-Classified :
    (err : Option Errno) (context : Context) → Classified err context (class_of_errno err context)
unfolding class_of_errno
class_of_errno-Classified err context = record {
  not_found = (λ h. ground arith, λ h. ground arith);
  busy = (λ h. ground arith, λ h. ground arith);
  unsupported = (λ h. ground arith, λ h. ground arith);
  gone = (λ h. ground arith, λ h. ground arith);
}

-- Whatever is caught, the mapping is settled after one application: mapping its result again, at
-- any call site and with any path, returns it unchanged.
pub errno_to_exception_settled :
    (exc : Exn) (c c' : Context) (path path' : Option String)
    → errno_to_exception (errno_to_exception exc c path) c' path' ≡ errno_to_exception exc c path
unfolding errno_to_exception
errno_to_exception_settled (Exn.os_error e) c c' path path' = refl
errno_to_exception_settled _ c c' path path' = refl
