-- ===== src/Codec/UdsTables.antt =====
-- fielddeck/protocols/uds.py: the services and the tables of names. Descriptions are left out.
use field_deck.Prelude.{ℕ, String, List, [], ◌∷◌}
use field_deck.Common.Permission.{PermissionLevel, query, control, flash}

pub record UdsService : Type 0 where
  pub sid : ℕ
  pub name : String
  pub permission : PermissionLevel

abbrev service : ℕ → String → PermissionLevel → UdsService
service sid name permission = record { sid = sid; name = name; permission = permission }

-- SERVICES
abbrev pub services : List UdsService
services =
    service 0x10 "DiagnosticSessionControl" control
    ∷ service 0x11 "ECUReset" control
    ∷ service 0x14 "ClearDiagnosticInformation" control
    ∷ service 0x19 "ReadDTCInformation" query
    ∷ service 0x22 "ReadDataByIdentifier" query
    ∷ service 0x23 "ReadMemoryByAddress" query
    ∷ service 0x24 "ReadScalingDataByIdentifier" query
    ∷ service 0x27 "SecurityAccess" control
    ∷ service 0x28 "CommunicationControl" control
    ∷ service 0x29 "Authentication" control
    ∷ service 0x2a "ReadDataByPeriodicIdentifier" control
    ∷ service 0x2c "DynamicallyDefineDataIdentifier" control
    ∷ service 0x2e "WriteDataByIdentifier" control
    ∷ service 0x2f "InputOutputControlByIdentifier" control
    ∷ service 0x31 "RoutineControl" control
    ∷ service 0x34 "RequestDownload" flash
    ∷ service 0x35 "RequestUpload" query
    ∷ service 0x36 "TransferData" flash
    ∷ service 0x37 "RequestTransferExit" flash
    ∷ service 0x38 "RequestFileTransfer" flash
    ∷ service 0x3d "WriteMemoryByAddress" flash
    ∷ service 0x3e "TesterPresent" control
    ∷ service 0x83 "AccessTimingParameter" control
    ∷ service 0x84 "SecuredDataTransmission" control
    ∷ service 0x85 "ControlDTCSetting" control
    ∷ service 0x86 "ResponseOnEvent" control
    ∷ service 0x87 "LinkControl" control
    ∷ []

abbrev pub nrc_names : List (ℕ × String)
nrc_names =
    (0x10, "generalReject")
    ∷ (0x11, "serviceNotSupported")
    ∷ (0x12, "subFunctionNotSupported")
    ∷ (0x13, "incorrectMessageLengthOrInvalidFormat")
    ∷ (0x14, "responseTooLong")
    ∷ (0x21, "busyRepeatRequest")
    ∷ (0x22, "conditionsNotCorrect")
    ∷ (0x24, "requestSequenceError")
    ∷ (0x25, "noResponseFromSubnetComponent")
    ∷ (0x26, "failurePreventsExecutionOfRequestedAction")
    ∷ (0x31, "requestOutOfRange")
    ∷ (0x33, "securityAccessDenied")
    ∷ (0x34, "authenticationRequired")
    ∷ (0x35, "invalidKey")
    ∷ (0x36, "exceedNumberOfAttempts")
    ∷ (0x37, "requiredTimeDelayNotExpired")
    ∷ (0x70, "uploadDownloadNotAccepted")
    ∷ (0x71, "transferDataSuspended")
    ∷ (0x72, "generalProgrammingFailure")
    ∷ (0x73, "wrongBlockSequenceCounter")
    ∷ (0x78, "requestCorrectlyReceived-ResponsePending")
    ∷ (0x7e, "subFunctionNotSupportedInActiveSession")
    ∷ (0x7f, "serviceNotSupportedInActiveSession")
    ∷ (0x81, "rpmTooHigh")
    ∷ (0x82, "rpmTooLow")
    ∷ (0x83, "engineIsRunning")
    ∷ (0x84, "engineIsNotRunning")
    ∷ (0x87, "shifterLeverNotInPark")
    ∷ (0x92, "voltageTooHigh")
    ∷ (0x93, "voltageTooLow")
    ∷ []

abbrev pub data_identifiers : List (ℕ × String)
data_identifiers =
    (0xf180, "bootSoftwareIdentification")
    ∷ (0xf181, "applicationSoftwareIdentification")
    ∷ (0xf182, "applicationDataIdentification")
    ∷ (0xf183, "bootSoftwareFingerprint")
    ∷ (0xf184, "applicationSoftwareFingerprint")
    ∷ (0xf186, "activeDiagnosticSession")
    ∷ (0xf187, "vehicleManufacturerSparePartNumber")
    ∷ (0xf188, "vehicleManufacturerECUSoftwareNumber")
    ∷ (0xf189, "vehicleManufacturerECUSoftwareVersionNumber")
    ∷ (0xf18a, "systemSupplierIdentifier")
    ∷ (0xf18c, "ECUSerialNumber")
    ∷ (0xf190, "VIN")
    ∷ (0xf191, "vehicleManufacturerECUHardwareNumber")
    ∷ (0xf192, "systemSupplierECUHardwareNumber")
    ∷ (0xf194, "systemSupplierECUSoftwareNumber")
    ∷ (0xf195, "systemSupplierECUSoftwareVersionNumber")
    ∷ (0xf197, "systemNameOrEngineType")
    ∷ (0xf19e, "ODXFile")
    ∷ []

abbrev pub session_types : List (ℕ × String)
session_types =
    (0x1, "default")
    ∷ (0x2, "programming")
    ∷ (0x3, "extendedDiagnostic")
    ∷ (0x4, "safetySystemDiagnostic")
    ∷ []

abbrev pub reset_types : List (ℕ × String)
reset_types =
    (0x1, "hardReset")
    ∷ (0x2, "keyOffOnReset")
    ∷ (0x3, "softReset")
    ∷ (0x4, "enableRapidPowerShutDown")
    ∷ (0x5, "disableRapidPowerShutDown")
    ∷ []
