-- ===== src/Http.antt =====
-- What the handlers read of an HTTP request's method; the statuses are in a child.
pub mod Status

pub data Method : Type 0 where
  get head post put options other : Method
