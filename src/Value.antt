-- ===== src/Value.antt =====
-- The values of a decoded JSON document, as the harness's stored state holds them: what Python
-- spells None, bool, int, float, str, list and dict. A dict keeps its insertion order.
mod Data
mod Dict
mod Equality
pub use Data.*
pub use Dict.*
pub use Equality.*
