-- ===== src/Dlt/Classify/Table.antt =====
-- The built-in table of src/dlt/classify.py, and the lookup in it.
use agentic_resident_crm.Prelude.{
  Bool, true, ◌&&◌, Text, List, [], ◌∷◌, Option, none, some, if◌then◌else◌, codes, length,
  starts_with, ltb, ◌==◌, text_eq,
}
use agentic_resident_crm.Dlt.Findings.{FailureClass, code_defect, technical}

abbrev pub default_class_map : List (Text × FailureClass)
default_class_map =
    (codes "java.lang.NullPointerException", code_defect)
    ∷ (codes "java.lang.IndexOutOfBoundsException", code_defect)
    ∷ (codes "java.lang.ArrayIndexOutOfBoundsException", code_defect)
    ∷ (codes "java.lang.StringIndexOutOfBoundsException", code_defect)
    ∷ (codes "java.lang.ClassCastException", code_defect)
    ∷ (codes "java.lang.NumberFormatException", code_defect)
    ∷ (codes "java.lang.ArithmeticException", code_defect)
    ∷ (codes "java.lang.IllegalArgumentException", code_defect)
    ∷ (codes "java.lang.IllegalStateException", code_defect)
    ∷ (codes "java.lang.UnsupportedOperationException", code_defect)
    ∷ (codes "java.lang.StackOverflowError", code_defect)
    ∷ (codes "java.util.NoSuchElementException", code_defect)
    ∷ (codes "java.util.ConcurrentModificationException", code_defect)
    ∷ (codes "java.lang.ClassNotFoundException", code_defect)
    ∷ (codes "java.lang.NoSuchMethodError", code_defect)
    ∷ (codes "java.net.SocketTimeoutException", technical)
    ∷ (codes "java.net.ConnectException", technical)
    ∷ (codes "java.net.UnknownHostException", technical)
    ∷ (codes "java.net.SocketException", technical)
    ∷ (codes "java.util.concurrent.TimeoutException", technical)
    ∷ (codes "javax.net.ssl", technical)
    ∷ (codes "java.sql.SQLTransientException", technical)
    ∷ (codes "java.sql.SQLTimeoutException", technical)
    ∷ (codes "java.sql.SQLRecoverableException", technical)
    ∷ (codes "org.springframework.dao.QueryTimeoutException", technical)
    ∷ (codes "org.springframework.dao.DataAccessResourceFailureException", technical)
    ∷ (codes "org.springframework.dao.TransientDataAccessException", technical)
    ∷ (codes "org.springframework.dao.CannotAcquireLockException", technical)
    ∷ (codes "org.springframework.jdbc.CannotGetJdbcConnectionException", technical)
    ∷ (codes "org.springframework.web.client.ResourceAccessException", technical)
    ∷ (codes "org.springframework.web.client.HttpServerErrorException", technical)
    ∷ (codes "feign.RetryableException", technical)
    ∷ (codes "io.github.resilience4j.circuitbreaker.CallNotPermittedException", technical)
    ∷ (codes "org.apache.kafka.common.errors.TimeoutException", technical)
    ∷ (codes "org.apache.kafka.common.errors.RetriableException", technical)
    ∷ (codes "org.apache.kafka.common.errors.NotLeaderOrFollowerException", technical)
    ∷ (codes "org.springframework.kafka.support.serializer.DeserializationException", technical)
    ∷ (codes "org.apache.kafka.common.errors.SerializationException", technical)
    ∷ (codes "com.fasterxml.jackson.core.JsonProcessingException", technical)
    ∷ (codes "com.fasterxml.jackson.databind.JsonMappingException", technical)
    ∷ []

-- `fqcn in mapping`
unfoldable pub exact_class : Text → List (Text × FailureClass) → Option FailureClass
exact_class fqcn [] = none
exact_class fqcn ((prefix, value) ∷ rest) =
    if prefix == fqcn then some value else exact_class fqcn rest

abbrev pub longer_than : Text → Option (Text × FailureClass) → Bool
longer_than prefix none = true
longer_than prefix (some (best, value)) = ltb (length best) (length prefix)

-- The loop over the table, with the best entry so far.
unfoldable pub best_prefix :
    Text → Option (Text × FailureClass) → List (Text × FailureClass) → Option (Text × FailureClass)
best_prefix fqcn best [] = best
best_prefix fqcn best ((prefix, value) ∷ rest) =
    best_prefix fqcn
      (if starts_with fqcn prefix && longer_than prefix best then some (prefix, value) else best)
      rest

abbrev pub value_of : Option (Text × FailureClass) → Option FailureClass
value_of none = none
value_of (some (prefix, value)) = some value

abbrev pub or_value : Option FailureClass → Option FailureClass → Option FailureClass
or_value none other = other
or_value (some v) other = some v

unfoldable pub lookup_class : List (Text × FailureClass) → Text → Option FailureClass
lookup_class mapping fqcn =
    or_value (exact_class fqcn mapping) (value_of (best_prefix fqcn none mapping))
